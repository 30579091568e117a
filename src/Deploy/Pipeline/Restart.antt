-- ===== src/Deploy/Pipeline/Restart.antt =====
-- The commands that a deployment runs: the platform is stopped first and started last.
use new_cpp.Prelude.{
  ℕ, ◌≡◌, refl, sym, ap, ◌∙◌, ◌⊎◌, Bool, true, false, Option, some, List, [], ◌∷◌, ◌++◌, Bool-cases,
  inl, inr, append_assoc, append-nil,
}
use new_cpp.Deploy.Os.{
  Os, Machine, Renamed, moved, cross_device, failed, execute, remove_file, rename_file,
}
use new_cpp.Deploy.Mover.{move_file_over, move_file, move_fallback, copy_file, copy_cmd}
use new_cpp.Deploy.Unpacker.Quoting.{unpack-Unpacks}
use new_cpp.Deploy.Package.{InstallPkg, get_archives_path, get_policy_path}
use new_cpp.Deploy.Pipeline.{
  Configuration, conf_policy_path, conf_module_deploy_path, conf_start, conf_stop, conf_configure,
  fallback, deploy_archive, old_path, backup_policy, restore_policy, deploy_policy_file,
  deploy_archives, configure_and_start, finish, deploy,
}

-- From one machine to another some commands were run, and none is forgotten.
pub record Ran {W : Type 0} (m m' : Machine W) : Type 0 where
  pub more : List (List ℕ)
  pub kept : m'.commands ≡ m.commands ++ more

Ran-refl : {W : Type 0} (m : Machine W) → Ran m m
Ran-refl m = record { more = []; kept = sym (append-nil m.commands) }

Ran-trans : {W : Type 0} {a b c : Machine W} → Ran a b → Ran b c → Ran a c
Ran-trans {a = a} h k = record {
  more = h.more ++ k.more;
  kept = k.kept ∙ ap (λ l. l ++ k.more) h.kept ∙ append_assoc a.commands h.more k.more;
}

module _ (os : Os) where
  open os use {World}

  execute-Ran : (cmd : List ℕ) (m : Machine World) → Ran m (execute os cmd m).1
  unfolding execute
  execute-Ran cmd m = record { more = cmd ∷ []; kept = refl }

  remove_file-Ran : (path : List ℕ) (m : Machine World) → Ran m (remove_file os path m).1
  unfolding remove_file
  remove_file-Ran path m = record { more = []; kept = sym (append-nil m.commands) }

  rename_file-Ran : (src dest : List ℕ) (m : Machine World) → Ran m (rename_file os src dest m).1
  unfolding rename_file
  rename_file-Ran src dest m = record { more = []; kept = sym (append-nil m.commands) }

  copy_file-Ran : (src dest : List ℕ) (m : Machine World) → Ran m (copy_file os src dest m).1
  unfolding copy_file
  copy_file-Ran src dest m =
      let cmd = copy_cmd src dest in
      let m_1 = (execute os cmd m).1 in
      elim (Bool-cases (execute os cmd m).0) [
        | inl e ↦ rw e (Ran-trans (execute-Ran cmd m) (remove_file-Ran src m_1))
        | inr e ↦ rw e (execute-Ran cmd m)
      ]

  move_fallback-Ran :
      (src dest : List ℕ) (r : Renamed) (m : Machine World)
      → Ran m (move_fallback os src dest (r, m)).1
  unfolding move_fallback
  move_fallback-Ran src dest moved m = Ran-refl m
  move_fallback-Ran src dest cross_device m = copy_file-Ran src dest m
  move_fallback-Ran src dest failed m = Ran-refl m

  move_file-Ran : (src dest : List ℕ) (m : Machine World) → Ran m (move_file os src dest m).1
  unfolding move_file
  move_file-Ran src dest m =
      let (r, m_1) = rename_file os src dest m in
      Ran-trans (rename_file-Ran src dest m) (move_fallback-Ran src dest r m_1)

  move_file_over-Ran :
      (src dest : List ℕ) (m : Machine World) → Ran m (move_file_over os src dest true m).1
  unfolding move_file_over
  move_file_over-Ran src dest m =
      let m_1 = (remove_file os dest m).1 in
      Ran-trans (remove_file-Ran dest m) (move_file-Ran src dest m_1)

module _ (os : Os) (conf : Configuration) where
  open os use {World, good}

  -- An archive is deployed or not, but the call returns.
  deploy_archive-Ran :
      (path : List ℕ) (m : Machine World)
      → (b : Bool) × (m' : Machine World) × (deploy_archive os conf path m ≡ some (b, m'))
        × Ran m m'
  unfolding deploy_archive
  deploy_archive-Ran path m = elim (unpack-Unpacks os path (conf conf_module_deploy_path) m) [
    | inl e ↦ (false, m, e, Ran-refl m)
    | inr h ↦ let (b, m') = execute os h.cmd m in (b, m', h.run, execute-Ran os h.cmd m)
  ]

  deploy_archives-Ran :
      (paths : List (List ℕ)) (m : Machine World)
      → (b : Bool) × (m' : Machine World) × (deploy_archives os conf paths m ≡ some (b, m'))
        × Ran m m'
  unfolding deploy_archives
  deploy_archives-Ran [] m = (true, m, refl, Ran-refl m)
  deploy_archives-Ran (path ∷ paths) m =
      let (b, m_1, e, h) = deploy_archive-Ran path m in
      let (c, m_2, f, k) = deploy_archives-Ran paths m_1 in
      elim (Bool-cases b) [
        | inl t ↦ (c, m_2, rw (deploy_archives, e, t) f, Ran-trans h k)
        | inr t ↦ (false, m_1, rw (deploy_archives, e, t), h)
      ]

  backup_policy-Ran : (m : Machine World) → Ran m (backup_policy os conf m).1
  unfolding backup_policy
  backup_policy-Ran m = elim (Bool-cases (good (conf conf_policy_path) m.world)) [
    | inl e ↦ rw e (move_file_over-Ran os (conf conf_policy_path) (old_path os conf) m)
    | inr e ↦ rw e (Ran-refl m)
  ]

  deploy_policy_file-Ran :
      (path : List ℕ) (m : Machine World) → Ran m (deploy_policy_file os conf path m).1
  unfolding deploy_policy_file restore_policy
  deploy_policy_file-Ran path m =
      let (saved, m_1) = backup_policy os conf m in
      let (success, m_2) = move_file_over os path (conf conf_policy_path) true m_1 in
      let h : Ran m m_1 = backup_policy-Ran m in
      let k : Ran m_1 m_2 = move_file_over-Ran os path (conf conf_policy_path) m_1 in
      let restored : Ran m_2 (restore_policy os conf m_2) =
        move_file_over-Ran os (old_path os conf) (conf conf_policy_path) m_2 in
      elim (Bool-cases saved) [
        | inl e ↦ elim (Bool-cases success) [
          | inl f ↦ rw (e, f) (Ran-trans h k)
          | inr f ↦ rw (e, f) (Ran-trans h (Ran-trans k restored))
        ]
        | inr e ↦ rw e h
      ]

  -- What the end of a deployment does: start the platform, on a machine that only ran more commands.
  record Starts (m : Machine World) (result : Bool × Machine World) : Type 0 where
    before : Machine World
    ran : Ran m before
    started : result.1 ≡ (execute os (conf conf_start) before).1
    honest : result.0 ≡ true → (execute os (conf conf_start) before).0 ≡ true

  finish-Starts :
      (pkg : InstallPkg) (b : Bool) (m : Machine World) → Starts m (finish os conf pkg (b, m))
  unfolding finish fallback configure_and_start
  finish-Starts pkg false m = record {
    before = m;
    ran = Ran-refl m;
    started = refl;
    honest = λ e. absurd cc;
  }
  finish-Starts pkg true m =
      let (deployed, m_1) = deploy_policy_file os conf (get_policy_path true pkg) m in
      let h : Ran m m_1 = deploy_policy_file-Ran (get_policy_path true pkg) m in
      elim (Bool-cases deployed) [
        | inl e ↦ rw e record {
          before = (execute os (conf conf_configure) m_1).1;
          ran = Ran-trans h (execute-Ran os (conf conf_configure) m_1);
          started = refl;
          honest = λ f. f;
        }
        | inr e ↦ rw e record { before = m_1; ran = h; started = refl; honest = λ f. absurd cc }
      ]

  -- The two ends of a deployment.
  pub record Restarted (m : Machine World) (o : Option (Bool × Machine World)) : Type 0 where
    pub result : Bool × Machine World
    pub returned : o ≡ some result
    pub before : Machine World
    pub ran : Ran (execute os (conf conf_stop) m).1 before
    pub started : result.1 ≡ (execute os (conf conf_start) before).1
    pub honest : result.0 ≡ true → (execute os (conf conf_start) before).0 ≡ true

  abbrev pub Restarts : InstallPkg → Machine World → Type 0
  Restarts pkg m =
      (((execute os (conf conf_stop) m).0 ≡ false)
        × (deploy os conf pkg m ≡ some (false, (execute os (conf conf_stop) m).1)))
      ⊎ (((execute os (conf conf_stop) m).0 ≡ true) × Restarted m (deploy os conf pkg m))

  -- A deployment always returns. If the stop command fails, nothing else is done and the result is
  -- false. Otherwise, whatever fails on the way, the start command is the last thing that is done,
  -- after the stop command and with any other commands only between them, and the result is true
  -- only if the start command succeeded.
  pub deploy-Restarts : (pkg : InstallPkg) (m : Machine World) → Restarts pkg m
  unfolding deploy
  deploy-Restarts pkg m =
      let m_1 = (execute os (conf conf_stop) m).1 in
      let (b, m_2, e, h) = deploy_archives-Ran (get_archives_path true pkg) m_1 in
      let s = finish-Starts pkg b m_2 in
      elim (Bool-cases (execute os (conf conf_stop) m).0) [
        | inl t ↦ inr (
          t,
          record {
            result = finish os conf pkg (b, m_2);
            returned = rw (t, e);
            before = s.before;
            ran = Ran-trans h s.ran;
            started = s.started;
            honest = s.honest;
          },
        )
        | inr t ↦ inl (t, rw t)
      ]
