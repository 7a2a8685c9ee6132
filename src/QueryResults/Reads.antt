-- ===== src/QueryResults/Reads.antt =====
-- What `get` of src/xpd_report_agent/hermes_plugin/db_query/query_results.py hands out.
use xpd_report_agent.QueryResults.Bounds.{safe_session_id-eq}
use xpd_report_agent.QueryResults.Registry.{
  by_age, max_results, safe_session_id, ids, show_to, Settings, Item, remove_all, prune, get_for,
  get,
}
use xpd_report_agent.Prelude.Dict.{lookup-remove, remove, Dict, lookup}
use xpd_report_agent.Prelude.{
  take, ℕ, ◌-◌, ◌<◌, String, ◌≡◌, refl, inl, inr, Bool, true, false, ◌||◌, Option, none, some, List,
  [], ◌∷◌, arith, leb, str_eq, eq_iff, if◌then◌else◌, Bool-cases, length, filter,
}

abbrev mem_text : String → List String → Bool
mem_text k [] = false
mem_text k (j ∷ js) = str_eq j k || mem_text k js

lookup-remove_all :
    (k : String) (ks : List String) (d : Dict Item)
    → lookup k (remove_all ks d) ≡ (if mem_text k ks then none else lookup k d)
unfolding remove_all
lookup-remove_all k [] d = refl
lookup-remove_all k (j ∷ ks) d =
    ground (arith, lookup-remove_all k ks (remove j d), lookup-remove j k d)

-- An entry that passes a test has its key among those of the entries that pass.
mem-filter :
    (p : String × Item → Bool) (k : String) (d : Dict Item) {item : Item}
    → lookup k d ≡ some item
    → p (k, item) ≡ true
    → mem_text k (ids (filter p d)) ≡ true
unfolding lookup
mem-filter p k [] h t = cc
mem-filter p k ((j, v) ∷ d) {item} h t = elim (Bool-cases (str_eq j k)) [
  | inl b ↦ ground (arith, eq_iff j k)
  | inr b ↦ ground (arith, mem-filter p k d {item = item} (rw b at h) t)
]

prune-live :
    (s : Settings) (now reserve : ℕ) (d : Dict Item) (k : String) {item : Item}
    → lookup k (prune s now reserve d) ≡ some item
    → (lookup k d ≡ some item) × (now < item.expires_at)
unfolding prune
prune-live s now reserve d k {item} h =
    let dead = ids (filter (λ e. leb e.1.expires_at now) d) in
    let live = remove_all dead d in
    let drops = ids (take (length live - (max_results s - reserve)) (by_age live)) in
    let h1 : lookup k live ≡ some item = ground (arith, lookup-remove_all k drops live) in
    let h2 : lookup k d ≡ some item = ground (arith, lookup-remove_all k dead d) in
    let h3 : mem_text k dead ≡ false = ground (arith, lookup-remove_all k dead d) in
    (h2, ground (arith, mem-filter (λ e. leb e.1.expires_at now) k d h2))

get_for_sound :
    (s : Settings) (id session : String) (now : ℕ) (d : Dict Item) (o : Option String) {item : Item}
    → safe_session_id session ≡ o
    → (get_for s id now d o).1 ≡ some item
    → (lookup id d ≡ some item) × (item.session_id ≡ session) × (now < item.expires_at)
unfolding get_for show_to
get_for_sound s id session now d none e h = cc
get_for_sound s id session now d (some t) {item} e h =
    let same = safe_session_id-eq session e in
    let found : lookup id (prune s now 0 d) ≡ some item = ground arith in
    let (kept, live) = prune-live s now 0 d id found in
    (kept, ground (arith, eq_iff item.session_id t), live)

-- An item that `get` returns is the one that the registry holds under the id, belongs to the session
-- that asks, and has not expired.
pub get_sound :
    (s : Settings) (id session : String) (now : ℕ) (d : Dict Item) {item : Item}
    → (get s id session now d).1 ≡ some item
    → (lookup id d ≡ some item) × (item.session_id ≡ session) × (now < item.expires_at)
unfolding get
get_sound s id session now d h = get_for_sound s id session now d (safe_session_id session) refl h
