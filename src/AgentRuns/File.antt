-- ===== src/AgentRuns/File.antt =====
-- The file of the run store, and its `_load` and `_save`
-- (src/xpd_report_agent/api/agent_runs.py). The locks make an operation one step.
use xpd_report_agent.Prelude.{
  refl, ◌≡◌, ℕ, String, Bool, Option, none, some, [], ◌==◌, if◌then◌else◌,
}
use xpd_report_agent.Prelude.Dict.{Dict}
use xpd_report_agent.AgentRuns.Run.{Entry, Result, ok, err, store_error}

-- `unreadable`: an `OSError` or a `JSONDecodeError`. `document` holds the `version` and `runs` of
-- the payload, `none` where they are missing or of another type.
pub data File : Type 0 where
  missing unreadable : File
  document : Option ℕ → Option (Dict Entry) → File

-- What a call meets outside: the i-th reading of `utc_now()`, and whether writing succeeds.
pub record Env : Type 0 where
  pub clock : ℕ → String
  pub writable : Bool

abbrev pub stored : Dict Entry → File
stored runs = document (some 1) (some runs)

-- `_load`
unfoldable pub load : File → Result (Dict Entry)
load missing = ok []
load unreadable = err store_error
load (document none _) = err store_error
load (document (some version) none) = err store_error
load (document (some version) (some runs)) = if version == 1 then ok runs else err store_error

-- `_save`: the replacement is atomic, so a failure leaves the old file.
unfoldable pub save : Env → Dict Entry → Result File
save e runs = if e.writable then ok (stored runs) else err store_error

pub load-stored : (runs : Dict Entry) → load (stored runs) ≡ ok runs
unfolding load
load-stored runs = refl
