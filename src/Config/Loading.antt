-- ===== src/Config/Loading.antt =====
-- What the calls of project/config/config.go leave of the global configuration.
use lab.Base.{String, List, [], ◌∷◌, true, false, Option, none, some, ◌≡◌, refl, inl, inr}
use lab.Base.Results.{ok, err, Result-cases}
use lab.Config.Global.{
  Files, Globals, GlobalConfig, load_config, load_once, update_config, save_config, get_config,
}

abbrev pub no_globals : {F : Type 0} → Globals F
no_globals = record { config = none; is_done = false }

-- The calls of a program, each with what it meets outside.
pub data Call (F : Type 0) : Type 0 where
  load : Files F → String → Call F
  update : Files F → GlobalConfig F → String → String → Call F

unfoldable pub call : {F : Type 0} → Call F → Globals F → Globals F
unfolding load_config update_config
call (load files path) g = (load_config files path g).0
call (update files cfg directory path) g = (update_config files cfg directory path g).0

unfoldable pub calls : {F : Type 0} → List (Call F) → Globals F → Globals F
unfolding call
calls [] g = g
calls (c ∷ cs) g = calls cs (call c g)

-- The configuration that holds after some calls, given the one before: that of the last update that was
-- saved.
abbrev pub last_saved :
    {F : Type 0} → List (Call F) → Option (GlobalConfig F) → Option (GlobalConfig F)
last_saved [] before = before
last_saved (load files path ∷ cs) before = last_saved cs before
last_saved (update files cfg directory path ∷ cs) before =
    last_saved cs
      (elim (save_config files cfg directory path) [ err e ↦ before | ok done ↦ some cfg ])

calls-done :
    {F : Type 0} (cs : List (Call F)) (g : Globals F)
    → g.is_done ≡ true
    → calls cs g ≡ record { config = last_saved cs g.config; is_done = true }
unfolding calls load_config update_config
calls-done [] g h = cc
calls-done (load files path ∷ cs) g h =
    let same : (load_config files path g).0 ≡ g = rw (h, load_config) refl in
    rw same (calls-done cs g h)
calls-done (update files cfg directory path ∷ cs) g h =
    elim (Result-cases (save_config files cfg directory path)) [
      | inl (done, q) ↦
          let next : (update_config files cfg directory path g).0 ≡ record g { config = some cfg } =
            rw (q, update_config) refl in
          rw (next, q) (calls-done cs (record g { config = some cfg }) h)
      | inr (e, q) ↦
          let next : (update_config files cfg directory path g).0 ≡ g =
            rw (q, update_config) refl in
          rw (next, q) (calls-done cs g h)
    ]

-- Only the first LoadConfig reads a file. Every later one, whatever its path, changes nothing and returns,
-- without an error, the configuration of the last update that was saved since, or else what the first one
-- has left, which is an empty or partial configuration when the first one failed.
pub load_config-again :
    {F : Type 0} (first second : Files F) (path other : String) (cs : List (Call F))
    → let g = calls cs (load_config first path no_globals).0 in
      let kept = last_saved cs (some (load_once first path).0) in
      (load_config second other g ≡ (g, ok kept)) × (get_config second g ≡ kept)
unfolding load_config get_config
load_config-again first second path other cs =
    let first_call = (load_config first path no_globals).0 in
    let after = calls-done cs first_call refl in rw after (refl, refl)
