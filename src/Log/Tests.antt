-- ===== src/Log/Tests.antt =====
-- The theorems on the log (kernel/log.c) at concrete inputs.
use operating_system_se.Base.{◌≡◌, refl, true, false, [], ◌∷◌, ◌==◌, arith, if◌then◌else◌, ok}
use operating_system_se.Log.{Store, Trans, begin_op, log_write}
use operating_system_se.Log.Recover.{IsReady}
use operating_system_se.Log.Commit.{CrashSafe, IsDone, commit-IsAtomic, commit-IsDone}
use operating_system_se.Log.Reserve.{Reaches, start, next, begins, writes, Reaches-log_write}

-- Blocks 40 and 41 are changed in the cache; the log starts at block 2.
abbrev store : Store
store = record {
  disk = λ x. [];
  cache = λ x. if x == 40 then 7 ∷ [] else if x == 41 then 8 ∷ [] else [];
  crashes = [];
}

store-IsReady : IsReady 2 (40 ∷ 41 ∷ []) store
store-IsReady = record {
  fits = omega arith;
  homes = (refl, (refl, tt));
  empty = refl;
  clean = λ x out home. ground arith;
}

commit-IsAtomic_example : CrashSafe 2 (40 ∷ 41 ∷ []) store store-IsReady
commit-IsAtomic_example = commit-IsAtomic 2 (40 ∷ 41 ∷ []) store store-IsReady refl

commit-IsDone_example : IsDone 2 (40 ∷ 41 ∷ []) store store-IsReady
commit-IsDone_example = commit-IsDone 2 (40 ∷ 41 ∷ []) store store-IsReady refl

-- An operation has begun and has logged block 40.
abbrev began : Trans
began = record { outstanding = 1; committing = false; blocks = [] }

abbrev logged : Trans
logged = record { outstanding = 1; committing = false; blocks = 40 ∷ [] }

began-Reaches : Reaches began ([] ∷ [])
unfolding begin_op
began-Reaches = next start (begins refl)

logged-Reaches : Reaches logged ((40 ∷ []) ∷ [])
unfolding log_write
logged-Reaches = next began-Reaches (writes 0 40 [] true refl (omega arith) refl)

Reaches-log_write_example :
    log_write 41 logged
    ≡ ok (record { outstanding = 1; committing = false; blocks = 40 ∷ 41 ∷ [] }, true)
Reaches-log_write_example =
    Reaches-log_write logged ((40 ∷ []) ∷ []) 0 41 (40 ∷ []) logged-Reaches refl (omega arith)
