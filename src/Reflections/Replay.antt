-- ===== src/Reflections/Replay.antt =====
-- Reflections whose outcome is unknown (src/xpd_report_agent/api/reflections.py).
use xpd_report_agent.Prelude.{ℕ, String, ◌≡◌, ◌∙◌, Bool, false, Option, some, str_eq}
use xpd_report_agent.Prelude.Dict.{Dict, lookup}
use xpd_report_agent.Reflections.Queue.{Job}
use xpd_report_agent.Reflections.Steps.{is_executing, World, jobs, Event, delete}
use xpd_report_agent.Reflections.Untouched.{calls_of, Untouched, IsUnknown}

-- The event does not delete the session of the job.
abbrev pub Spares : Job → Bool × Event → Type 0
Spares j (disk, delete session_id) = str_eq j.session_id session_id ≡ false
Spares j (disk, _) = Unit

module _ (digest : String → ℕ → String) (m : ℕ) (id : String) (j : Job) (u : IsUnknown j) where
  -- The job stands as it is, its executor does not run, and it was called so often.
  abbrev pub Stands : World → ℕ → Type 0
  Stands w n =
      (lookup id (jobs w) ≡ some j)
      × (is_executing (lookup id w.tasks) ≡ false)
      × (calls_of id w ≡ n)

  kept : (w w' : World) (n : ℕ) → Stands w n → Untouched id w w' → Stands w' n
  kept w w' n (a, b, c) (a', b', c') = (a' ∙ a, b' b, c' ∙ c)
