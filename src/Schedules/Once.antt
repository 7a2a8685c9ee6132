-- ===== src/Schedules/Once.antt =====
-- `claim_run` of src/xpd_report_agent/api/schedule_store.py claims a period once.
use xpd_report_agent.Prelude.{
  String, ◌≡◌, refl, sym, ap, ◌∙◌, inl, inr, Bool, true, false, not, ◌||◌, Option, none, some,
  arith, str_eq, eq_iff, eq_refl, Bool-cases,
}
use mathlib.Core.Path.{subst}
use mathlib.Core.Option.{some_inj}
use xpd_report_agent.Prelude.Dict.{Dict, lookup, insert, lookup-insert}
use xpd_report_agent.Prelude.Result.{Outcome, ok, bind_elim}
use xpd_report_agent.Schedules.Store.{
  ScheduleError, Schedule, ScheduledRun, Schedules, ScheduleFile, stored, Outside, load_schedules,
  save_schedules,
}
use xpd_report_agent.Schedules.Claim.{
  period_key, recent_run, is_manual, run_key, run_id_of, new_run, claimed, Claimed, claim_new,
  claim_unless, claim_if, claim_found, claim_run,
}

abbrev OutcomeOf : Type 0
OutcomeOf = Outcome ScheduleError (Claimed × ScheduleFile)

-- What a new claim leaves behind: it was allowed, the id was free, the run is stored, and the
-- schedule points to it.
abbrev pub IsNewClaim :
    Outside → String → String → ScheduleFile → ScheduledRun → ScheduleFile → Schedule → Type 0
IsNewClaim w schedule_id token f r g sch =
    (sch.callback_token ≡ token)
    × (sch.enabled ≡ true)
    × (r ≡ new_run w schedule_id sch)
    × (lookup r.run_id (load_schedules f).runs ≡ none)
    × (lookup r.run_id (load_schedules g).runs ≡ some r)
    × (lookup schedule_id (load_schedules g).schedules ≡ some (claimed w r sch))

saved : (w : Outside) (s : Schedules) {g : ScheduleFile} → save_schedules w s ≡ ok g → stored s ≡ g
unfolding save_schedules
saved w s h = elim (Bool-cases w.disk) [
  | inl b ↦ let h' = rw b at h in cc
  | inr b ↦ absurd (let h' = rw b at h in ground arith)
]

run_of :
    {c c' : Option ScheduledRun} {b b' : Bool} {f g : ScheduleFile}
    → ◌≡◌ {A = OutcomeOf} (ok ((c, b), f)) (ok ((c', b'), g))
    → (c ≡ c') × (b ≡ b') × (f ≡ g)
run_of h = (cc, cc, cc)

ok_value : {x y : Claimed × ScheduleFile} → ◌≡◌ {A = OutcomeOf} (ok x) (ok y) → x ≡ y
ok_value h = cc

lookup-insert_self :
    {V : Type 0} (k : String) (v : V) (d : Dict V) → lookup k (insert k v d) ≡ some v
lookup-insert_self k v d = rw (lookup-insert k k v d) (ground (arith, eq_refl k))

run_id-new_run :
    (w : Outside) (id : String) (sch : Schedule)
    → (new_run w id sch).run_id ≡ run_id_of w id (run_key w sch)
unfolding new_run
run_id-new_run w id sch = refl

-- The parts of `IsNewClaim` that the end of `claim_run` makes true.
abbrev IsStored : Outside → String → Schedule → ScheduleFile → ScheduledRun → ScheduleFile → Type 0
IsStored w id sch f r g =
    (r ≡ new_run w id sch)
    × (lookup r.run_id (load_schedules f).runs ≡ none)
    × (lookup r.run_id (load_schedules g).runs ≡ some r)
    × (lookup id (load_schedules g).schedules ≡ some (claimed w r sch))

load-stored : (s : Schedules) → load_schedules (stored s) ≡ s
unfolding load_schedules
load-stored s = refl

module _ (w : Outside) (id token : String) (f : ScheduleFile) {r : ScheduledRun}
    {g : ScheduleFile} where
  claim_new-IsStored :
      (sch : Schedule) (o : Option ScheduledRun)
      → lookup (run_id_of w id (run_key w sch)) (load_schedules f).runs ≡ o
      → claim_new w id sch f o ≡ ok ((some r, true), g)
      → IsStored w id sch f r g
  unfolding claim_new
  claim_new-IsStored sch (some existing) e h = absurd (ground arith)
  claim_new-IsStored sch none e h = bind_elim (save_schedules w _) _ h (λ k s h1.
      let (same, _, kg) = run_of h1 in
      let new = new_run w id sch in
      let after : Schedules = record {
        schedules = insert id (claimed w new sch) (load_schedules f).schedules;
        runs = insert new.run_id new (load_schedules f).runs;
        taken = (load_schedules f).taken;
      } in
      let e' : lookup new.run_id (load_schedules f).runs ≡ none = rw (run_id-new_run w id sch) e in
      subst (λ r. IsStored w id sch f r g) (some_inj.0 same)
        (subst (IsStored w id sch f new) (saved w after s ∙ kg) (
          refl,
          e',
          rw (load-stored after) (lookup-insert_self new.run_id new (load_schedules f).runs),
          rw (load-stored after)
              (lookup-insert_self id (claimed w new sch) (load_schedules f).schedules),
        )))

  claim_unless-IsStored :
      (sch : Schedule) (o : Option ScheduledRun)
      → claim_unless w id sch f o ≡ ok ((some r, true), g)
      → IsStored w id sch f r g
  unfolding claim_unless
  claim_unless-IsStored sch (some previous) h = absurd (ground arith)
  claim_unless-IsStored sch none h =
      claim_new-IsStored sch (lookup (run_id_of w id (run_key w sch)) (load_schedules f).runs) refl
        h

  claim_if-new :
      (sch : Schedule) (b : Bool)
      → claim_if w id sch f b ≡ ok ((some r, true), g)
      → (b ≡ true) × IsStored w id sch f r g
  unfolding claim_if
  claim_if-new sch false h = absurd (ground arith)
  claim_if-new sch true h =
      (refl, claim_unless-IsStored sch (recent_run w (load_schedules f) sch) h)

  claim_found-new :
      (o : Option Schedule)
      → claim_found w id token f o ≡ ok ((some r, true), g)
      → (sch : Schedule) × (o ≡ some sch) × IsNewClaim w id token f r g sch
  unfolding claim_found
  claim_found-new none h = absurd (ground arith)
  claim_found-new (some sch) h =
      elim (Bool-cases (str_eq sch.callback_token "" || not (str_eq sch.callback_token token))) [
        | inl b ↦ absurd (let h' = rw b at h in ground arith)
        | inr b ↦
            let (d, (p, q, t, u)) = claim_if-new sch sch.enabled (rw b at h) in
            (sch, refl, (ground (arith, eq_iff sch.callback_token token), d, p, q, t, u))
      ]

  -- A claim that starts a run was made with the schedule's token on an enabled schedule, for a run
  -- id that was free; the run is stored under its id, and the schedule points to it.
  pub claim_run_new :
      claim_run w id token f ≡ ok ((some r, true), g)
      → (sch : Schedule) × (lookup id (load_schedules f).schedules ≡ some sch)
        × IsNewClaim w id token f r g sch
  unfolding claim_run
  claim_run_new h = claim_found-new (lookup id (load_schedules f).schedules) h

-- The claim starts no run and writes nothing.
abbrev pub IsIdle : ScheduleFile → Claimed × ScheduleFile → Type 0
IsIdle f c = (c.0.1 ≡ false) × (c.1 ≡ f)

module _ (w : Outside) (id token : String) (f : ScheduleFile) {c : Claimed × ScheduleFile} where
  claim_unless-IsIdle :
      (sch : Schedule) (r : ScheduledRun) (o : Option ScheduledRun)
      → lookup (run_id_of w id (run_key w sch)) (load_schedules f).runs ≡ some r
      → claim_unless w id sch f o ≡ ok c
      → IsIdle f c
  unfolding claim_unless claim_new
  claim_unless-IsIdle sch r (some previous) e h = subst (IsIdle f) (ok_value h) (refl, refl)
  claim_unless-IsIdle sch r none e h = subst (IsIdle f) (ok_value (rw e at h)) (refl, refl)

  claim_if-IsIdle :
      (sch : Schedule) (r : ScheduledRun) (b : Bool)
      → lookup (run_id_of w id (run_key w sch)) (load_schedules f).runs ≡ some r
      → claim_if w id sch f b ≡ ok c
      → IsIdle f c
  unfolding claim_if
  claim_if-IsIdle sch r false e h = subst (IsIdle f) (ok_value h) (refl, refl)
  claim_if-IsIdle sch r true e h =
      claim_unless-IsIdle sch r (recent_run w (load_schedules f) sch) e h

  claim_found-IsIdle :
      (o : Option Schedule) (sch : Schedule) (r : ScheduledRun)
      → o ≡ some sch
      → lookup (run_id_of w id (run_key w sch)) (load_schedules f).runs ≡ some r
      → claim_found w id token f o ≡ ok c
      → IsIdle f c
  unfolding claim_found
  claim_found-IsIdle none sch r s e h = cc
  claim_found-IsIdle (some other) sch r s e h =
      let e' = rw (sym (some_inj.0 s)) at e in
      elim (Bool-cases
        (str_eq other.callback_token "" || not (str_eq other.callback_token token))) [
          | inl b ↦ absurd (let h' = rw b at h in ground arith)
          | inr b ↦ claim_if-IsIdle other r other.enabled e' (rw b at h)
        ]

  claim_run-IsIdle :
      (sch : Schedule) (r : ScheduledRun)
      → lookup id (load_schedules f).schedules ≡ some sch
      → lookup (run_id_of w id (run_key w sch)) (load_schedules f).runs ≡ some r
      → claim_run w id token f ≡ ok c
      → IsIdle f c
  unfolding claim_run
  claim_run-IsIdle = claim_found-IsIdle (lookup id (load_schedules f).schedules)

run_key-claimed :
    (w v : Outside) (r : ScheduledRun) (sch : Schedule)
    → is_manual sch ≡ false
    → run_key v (claimed w r sch) ≡ period_key v sch
unfolding run_key claimed period_key
run_key-claimed w v r sch m = rw m (rw m refl)

run_key-period_key :
    (w : Outside) (sch : Schedule) → is_manual sch ≡ false → run_key w sch ≡ period_key w sch
unfolding run_key
run_key-period_key w sch m = rw m refl

run_id-same :
    (w v : Outside) (id key : String)
    → w.digest ≡ v.digest
    → run_id_of w id key ≡ run_id_of v id key
unfolding run_id_of
run_id-same w v id key h = rw h refl

-- After a claim has started the scheduled run of a period, where no manual run was asked for, a
-- further claim within the same period, at any time and with any token, starts no run and leaves
-- the file.
pub claim_run_once :
    (w v : Outside) (id token again : String) (f : ScheduleFile) (sch : Schedule) {r : ScheduledRun}
    {g : ScheduleFile} {c : Claimed × ScheduleFile}
    → lookup id (load_schedules f).schedules ≡ some sch
    → is_manual sch ≡ false
    → period_key w sch ≡ period_key v sch
    → w.digest ≡ v.digest
    → claim_run w id token f ≡ ok ((some r, true), g)
    → claim_run v id again g ≡ ok c
    → IsIdle g c
claim_run_once w v id token again f sch {r} {g} e manual period same first second =
    let (other, e', (_, _, made, _, run, pointed)) = claim_run_new w id token f first in
    let is : sch ≡ other = some_inj.0 (sym e ∙ e') in
    let manual' : is_manual other ≡ false = rw is at manual in
    let period' : period_key w other ≡ period_key v other = rw is at period in
    let key : run_key v (claimed w r other) ≡ run_key w other =
      run_key-claimed w v r other manual'
      ∙ sym period'
      ∙ sym (run_key-period_key w other manual') in
    let named : r.run_id ≡ run_id_of v id (run_key v (claimed w r other)) =
      ap (λ r. r.run_id) made
      ∙ run_id-new_run w id other
      ∙ run_id-same w v id (run_key w other) same
      ∙ ap (run_id_of v id) (sym key) in
    claim_run-IsIdle v id again g (claimed w r other) r pointed
      (subst (λ k. lookup k (load_schedules g).runs ≡ some r) named run) second
