-- ===== src/Deploy/Package/Sound.antt =====
-- What a detected package has: an archive of a known type, and a policy file.
use new_cpp.Prelude.{
  ℕ, ◌≡◌, refl, sym, ap, ◌∙◌, ◌⊎◌, Bool, true, false, some, List, [], ◌∷◌, ◌++◌, arith, Bool-cases,
  Option-cases, inl, inr, append_assoc, subst,
}
use new_cpp.Prelude.Text.{back_is}
use new_cpp.Deploy.Os.{Os}
use new_cpp.Deploy.Matching.{
  select, scan, find_named, find_archives, match_archive, identify, has_structure, matches,
  ends_like, zip_ext, tar_ext, zip, tar, folder, ArchiveType,
}
use new_cpp.Deploy.Package.{InstallPkg, add_last_delimiter, new, package_of, detect, policy_name}

-- The types that `unpack` knows.
abbrev pub IsKnown : ArchiveType → Type 0
IsKnown type = (type ≡ zip) ⊎ ((type ≡ tar) ⊎ (type ≡ folder))

select-front :
    (matcher : List ℕ → Bool) (path : List ℕ) (fs : List (List ℕ)) (x : List ℕ) (xs : List (List ℕ))
    → select matcher path fs ≡ x ∷ xs
    → matcher (path ++ b'/' ∷ x) ≡ true
unfolding select
select-front matcher path [] x xs h = absurd cc
select-front matcher path (f ∷ fs) x xs h = elim (Bool-cases (matcher (path ++ b'/' ∷ f))) [
  | inl e ↦
      let opened : select matcher path (f ∷ fs) ≡ f ∷ select matcher path fs = rw (select, e) in
      let same : f ≡ x = cc in subst (λ z. matcher (path ++ b'/' ∷ z) ≡ true) same e
  | inr e ↦
      let opened : select matcher path (f ∷ fs) ≡ select matcher path fs = rw (select, e) in
      select-front matcher path fs x xs (sym opened ∙ h)
]

rooted :
    (path name : List ℕ)
    → back_is b'/' path ≡ false
    → add_last_delimiter path ++ name ≡ path ++ b'/' ∷ name
unfolding add_last_delimiter
rooted path name slash = rw (slash, append_assoc path (b'/' ∷ []) name)

module _ (os : Os) where
  open os use {World, entries}

  scan-front :
      (matcher : List ℕ → Bool) (path : List ℕ) (w : World) (x : List ℕ) (xs : List (List ℕ))
      → scan os matcher path w ≡ x ∷ xs
      → matcher (path ++ b'/' ∷ x) ≡ true
  unfolding scan
  scan-front matcher path w x xs h = elim (Option-cases (entries path w)) [
    | inl e ↦ let opened : scan os matcher path w ≡ [] = rw (scan, e) in absurd cc
    | inr (fs, e) ↦
        let opened : scan os matcher path w ≡ select matcher path fs = rw (scan, e) in
        select-front matcher path fs x xs (sym opened ∙ h)
  ]

  -- What a folder is searched for and what `unpack` knows are the same archives.
  pub identify-match_archive :
      (path : List ℕ) (w : World) → match_archive os path w ≡ true → IsKnown (identify os path w)
  unfolding identify match_archive
  identify-match_archive path w h = elim (Bool-cases (matches (ends_like zip_ext path))) [
    | inl e ↦ inl (rw e)
    | inr e ↦ elim (Bool-cases (matches (ends_like tar_ext path))) [
      | inl f ↦ inr (inl (rw (e, f)))
      | inr f ↦
          let g : has_structure os path w ≡ true = ground (arith, h, e, f) in
          inr (inr (rw (e, f, g)))
    ]
  ]

  -- What is known of a package: it has one archive, of a type that can be unpacked, and its policy
  -- file's full path ends like the name of a policy file.
  pub record Sound (w : World) (pkg : InstallPkg) : Type 0 where
    pub archive : List ℕ
    pub only : pkg.archives ≡ archive ∷ []
    pub known : IsKnown (identify os (pkg.root_path ++ archive) w)
    pub policy : matches (ends_like policy_name (pkg.root_path ++ pkg.policy_file)) ≡ true

  package_of-Sound :
      (path : List ℕ) (w : World) (pkg : InstallPkg) (policies archs : List (List ℕ))
      → back_is b'/' path ≡ false
      → find_named os path policy_name w ≡ policies
      → find_archives os path w ≡ archs
      → package_of path policies archs ≡ some pkg
      → Sound w pkg
  unfolding package_of new find_named find_archives
  package_of-Sound path w pkg [] archs slash f g h = absurd cc
  package_of-Sound path w pkg (p ∷ ps) [] slash f g h = absurd cc
  package_of-Sound path w pkg (p ∷ ps) (a ∷ b ∷ bs) slash f g h = absurd cc
  package_of-Sound path w pkg (p ∷ ps) (a ∷ []) slash f g h =
      let made : new path p (a ∷ []) ≡ pkg = cc in
      subst (Sound w) made record {
        archive = a;
        only = refl;
        known =
            subst (λ z. IsKnown (identify os z w)) (sym (rooted path a slash))
              (identify-match_archive (path ++ b'/' ∷ a) w
                (scan-front (λ f. match_archive os f w) path w a [] g));
        policy =
            ap (λ z. matches (ends_like policy_name z)) (rooted path p slash)
            ∙ scan-front (λ f. matches (ends_like policy_name f)) path w p ps f;
      }

  -- In a folder that is given without a delimiter at its end: a package that is detected has
  -- exactly one archive; at its full path, on an unchanged system, it is of a type that can be
  -- unpacked; and the full path of its policy file ends like the name of a policy file.
  pub detect-Sound :
      (path : List ℕ) (w : World) (pkg : InstallPkg)
      → back_is b'/' path ≡ false
      → detect os path w ≡ some pkg
      → Sound w pkg
  unfolding detect
  detect-Sound path w pkg slash h =
      package_of-Sound path w pkg (find_named os path policy_name w) (find_archives os path w) slash
        refl refl h
