-- ===== src/Deploy/Usb/Places.antt =====
-- The package that is handed on after the move.
use new_cpp.Prelude.{
  ℕ, ◌≡◌, sym, subst, Bool, true, false, some, List, [], ◌∷◌, ◌++◌, if◌then◌else◌, Option-cases,
  inl, inr, map,
}
use new_cpp.Deploy.Os.{Os}
use new_cpp.Deploy.Matching.{
  select, scan, find_named, find_archives, match_archive, matches, ends_like,
}
use new_cpp.Deploy.Mover.{combine}
use new_cpp.Deploy.Mover.Combine.{IsName, AreNames, all_files-set_root_path}
use new_cpp.Deploy.Package.{
  InstallPkg, all_files, set_root_path, package_of, detect, policy_name, new,
}

-- What `readdir` gives: the entries of a directory are names.
abbrev pub ListsNames : Os → Type 0
ListsNames os =
    (path : List ℕ) (w : os.World) (fs : List (List ℕ)) → os.entries path w ≡ some fs → AreNames fs

AreNames-if :
    (b : Bool) (f : List ℕ) (fs : List (List ℕ))
    → IsName f
    → AreNames fs
    → AreNames (if b then f ∷ fs else fs)
AreNames-if true f fs h k = (h, k)
AreNames-if false f fs h k = k

select-AreNames :
    (matcher : List ℕ → Bool) (path : List ℕ) (fs : List (List ℕ))
    → AreNames fs
    → AreNames (select matcher path fs)
unfolding select
select-AreNames matcher path [] h = tt
select-AreNames matcher path (f ∷ fs) h =
    AreNames-if (matcher (path ++ b'/' ∷ f)) f (select matcher path fs) h.0
      (select-AreNames matcher path fs h.1)

module _ (os : Os) where
  open os use {World, entries}

  scan-AreNames :
      (matcher : List ℕ → Bool) (path : List ℕ) (w : World)
      → ListsNames os
      → AreNames (scan os matcher path w)
  unfolding scan
  scan-AreNames matcher path w law = elim (Option-cases (entries path w)) [
    | inl e ↦
        let opened : scan os matcher path w ≡ [] = rw (scan, e) in subst AreNames (sym opened) tt
    | inr (fs, e) ↦
        let opened : scan os matcher path w ≡ select matcher path fs = rw (scan, e) in
        subst AreNames (sym opened) (select-AreNames matcher path fs (law path w fs e))
  ]

  package_of-places :
      (path dest : List ℕ) (pkg : InstallPkg) (policies archs : List (List ℕ))
      → AreNames policies
      → AreNames archs
      → package_of path policies archs ≡ some pkg
      → map (λ f. combine f dest) (all_files true pkg) ≡ all_files true (set_root_path dest pkg)
  unfolding package_of
  package_of-places path dest pkg [] archs hp ha e = absurd cc
  package_of-places path dest pkg (p ∷ ps) [] hp ha e = absurd cc
  package_of-places path dest pkg (p ∷ ps) (a ∷ b ∷ bs) hp ha e = absurd cc
  package_of-places path dest pkg (p ∷ ps) (a ∷ []) hp ha e =
      let made : new path p (a ∷ []) ≡ pkg = cc in
      subst
        (λ z. map (λ f. combine f dest) (all_files true z) ≡ all_files true (set_root_path dest z))
        made (all_files-set_root_path path dest p (a ∷ []) (ha.0, (hp.0, tt)))

  -- On a system whose directories list names: for a package that is detected on a storage, the
  -- places that `moveFiles` gives to its files in a folder are the full paths that the package has
  -- after `setRootPath` with this folder. So what is handed on after the move names the files where
  -- they are.
  pub detect-places :
      (mount dest : List ℕ) (w : World) (pkg : InstallPkg)
      → ListsNames os
      → detect os mount w ≡ some pkg
      → map (λ f. combine f dest) (all_files true pkg) ≡ all_files true (set_root_path dest pkg)
  unfolding detect find_named find_archives
  detect-places mount dest w pkg law e =
      package_of-places mount dest pkg (find_named os mount policy_name w)
        (find_archives os mount w)
        (scan-AreNames (λ f. matches (ends_like policy_name f)) mount w law)
        (scan-AreNames (λ f. match_archive os f w) mount w law) e
