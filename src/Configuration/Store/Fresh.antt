-- ===== src/Configuration/Store/Fresh.antt =====
-- The age of the snapshot that `ConfigStore.snapshot` of common/repo_mcp_common/store.py returns.
use repo_mcp.Prelude.{
  ap, sym, ltb, none, subst, Option-cases, Bool-cases, inl, inr, nat_eq_iff, ◌∙◌, ℕ, ◌+◌, ◌-◌, ◌≤◌,
  ◌<◌, String, ◌≡◌, refl, Option, some, List, arith, ◌==◌, ℕ_eq, String_eq,
}
use repo_mcp.Prelude.Value.{Value}
use repo_mcp.Configuration.{Tables}
use repo_mcp.Configuration.Documents.{tenants_document, scan_document}
use repo_mcp.Configuration.Store.{Snapshot, Store, current_generation, load, reload, snapshot}
use repo_mcp.Configuration.Store.History.{Same, History}

module _ (decrypt : String → Option String) (defaults : List (String × Value)) where
  -- The tables of some moment, since the last check, under the generation of that moment or one before.
  pub record Read (h : ℕ → Tables) (latency now checked : ℕ) (s : Snapshot) : Type 0 where
    pub labelled : ℕ
    pub taken : ℕ
    pub ordered : labelled ≤ taken
    pub past : taken ≤ now
    pub since : checked ≤ taken + latency
    pub generation : s.generation ≡ current_generation (h labelled)
    pub content : s ≡ load decrypt defaults s.generation (h taken)

  abbrev pub Fresh : (ℕ → Tables) → ℕ → ℕ → Store → Type 0
  Fresh h latency now store =
      (s : Snapshot) → store.snapshot ≡ some s → Read h latency now store.checked_at s

  -- What a call returns and leaves: the tables of a moment at most `poll` before the call.
  pub record Served (h : ℕ → Tables) (latency poll now loaded : ℕ) (r : Snapshot × Store)
      : Type 0 where
    pub moment : ℕ
    pub recently : now ≤ moment + poll + latency
    pub past : moment ≤ loaded
    pub content : r.0 ≡ load decrypt defaults r.0.generation (h moment)
    pub kept : r.1.snapshot ≡ some r.0
    pub fresh : Fresh h latency loaded r.1

  load-Same :
      (g : ℕ) (db db' : Tables)
      → Same db db'
      → load decrypt defaults g db ≡ load decrypt defaults g db'
  unfolding load tenants_document scan_document
  load-Same g db db' h = rw (h.tenants, h.roles, h.connectors, h.settings, h.secrets) refl

  -- a snapshot of now, kept with the moment of its check
  Fresh-new :
      (h : ℕ → Tables) (s : Snapshot) (latency now checked : ℕ)
      → Read h latency now checked s
      → Fresh h latency now (record { snapshot = some s; checked_at = checked })
  Fresh-new h s latency now checked r u e =
      let same : s ≡ u = cc in subst (Read h latency now checked) same r

  module _ (h : ℕ → Tables) (history : History h) (latency poll now read checked loaded : ℕ)
      (asked : now ≤ read) (noted : read ≤ checked) (soon : checked ≤ read + latency)
      (answered : checked ≤ loaded) where
    anew-Served :
        let s = load decrypt defaults (current_generation (h read)) (h loaded) in
        Served h latency poll now loaded (s, record { snapshot = some s; checked_at = checked })
    unfolding load
    anew-Served = record {
      moment = loaded;
      recently = omega arith;
      past = omega arith;
      content = refl;
      kept = refl;
      fresh = Fresh-new h _ latency loaded checked (record {
        labelled = read;
        taken = loaded;
        ordered = omega arith;
        past = omega arith;
        since = omega arith;
        generation = refl;
        content = refl;
      });
    }

    again-Served :
        (s : Snapshot) (before : ℕ)
        → Read h latency now before s
        → s.generation ≡ current_generation (h read)
        → Served h latency poll now loaded (s, record { snapshot = some s; checked_at = checked })
    again-Served s before r same =
        let low = history.rises r.labelled r.taken r.ordered in
        let past = r.past in
        let later : r.taken ≤ read = omega arith in
        let high = history.rises r.taken read later in
        let labelled = r.generation in
        let equal : current_generation (h r.taken) ≡ current_generation (h read) = omega arith in
        let e =
          r.content
          ∙ load-Same s.generation (h r.taken) (h read) (history.names r.taken read later equal) in
        record {
          moment = read;
          recently = omega arith;
          past = omega arith;
          content = e;
          kept = refl;
          fresh = Fresh-new h s latency loaded checked (record {
            labelled = read;
            taken = read;
            ordered = omega arith;
            past = omega arith;
            since = omega arith;
            generation = same;
            content = e;
          });
        }

    reload-Served :
        (store : Store)
        → Fresh h latency now store
        → Served h latency poll now loaded (reload decrypt defaults read checked loaded h store)
    unfolding reload
    reload-Served store f = elim (Option-cases store.snapshot) [
      | inl none_yet ↦ rw none_yet anew-Served
      | inr (s, e) ↦ elim (Bool-cases (s.generation == current_generation (h read))) [
        | inl same ↦
            rw (e, same) (again-Served s store.checked_at (f s e) ((nat_eq_iff _ _).0 same))
        | inr moved ↦ rw (e, moved) anew-Served
      ]
    ]

    young-Served :
        (s : Snapshot) (before : ℕ)
        → now - before < poll
        → Fresh h latency now (record { snapshot = some s; checked_at = before })
        → Served h latency poll now loaded (s, record { snapshot = some s; checked_at = before })
    young-Served s before young f =
        let r = f s refl in
        let since = r.since in
        let past = r.past in
        record {
          moment = r.taken;
          recently = omega arith;
          past = omega arith;
          content = r.content;
          kept = refl;
          fresh = Fresh-new h s latency loaded before (record {
            labelled = r.labelled;
            taken = r.taken;
            ordered = r.ordered;
            past = omega arith;
            since = r.since;
            generation = r.generation;
            content = r.content;
          });
        }

    snapshot-kept :
        (o : Option Snapshot) (before : ℕ)
        → Fresh h latency now (record { snapshot = o; checked_at = before })
        → Served h latency poll now loaded (
            snapshot decrypt defaults poll now read checked loaded h
              (record { snapshot = o; checked_at = before }))
    unfolding snapshot
    snapshot-kept none before f = reload-Served _ f
    snapshot-kept (some s) before f = elim (Bool-cases (ltb (now - before) poll)) [
      | inr old ↦ rw old (reload-Served _ f)
      | inl young ↦ rw young (young-Served s before (ground (arith, young)) f)
    ]

    pub snapshot-Served :
        (store : Store)
        → Fresh h latency now store
        → Served h latency poll now loaded
            (snapshot decrypt defaults poll now read checked loaded h store)
    snapshot-Served store f = snapshot-kept store.snapshot store.checked_at f

  -- A snapshot of another generation is the only one that takes the place of the one kept.
  snapshot_unchanged :
      (poll now read checked loaded : ℕ) (h : ℕ → Tables) (s : Snapshot) (before : ℕ)
      → let store : Store = record { snapshot = some s; checked_at = before } in
        s.generation ≡ (snapshot decrypt defaults poll now read checked loaded h store).0.generation
        → s ≡ (snapshot decrypt defaults poll now read checked loaded h store).0
  unfolding snapshot reload load
  snapshot_unchanged poll now read checked loaded h s before e =
      elim (Bool-cases (ltb (now - before) poll)) [
        | inl young ↦ rw young refl
        | inr old ↦ elim (Bool-cases (s.generation == current_generation (h read))) [
          | inl same ↦ rw (old, same) refl
          | inr moved ↦
              let same : s.generation ≡ current_generation (h read) = rw (old, moved) at e in
              absurd (ground (arith, moved, same))
        ]
      ]

  pub snapshot_retained :
      (poll now read checked loaded : ℕ) (h : ℕ → Tables) (o : Option Snapshot) (before : ℕ)
      (s : Snapshot)
      → let store : Store = record { snapshot = o; checked_at = before } in
        o ≡ some s
        → s.generation
          ≡ (snapshot decrypt defaults poll now read checked loaded h store).0.generation
        → s ≡ (snapshot decrypt defaults poll now read checked loaded h store).0
  snapshot_retained poll now read checked loaded h none before s e g = cc
  snapshot_retained poll now read checked loaded h (some u) before s e g =
      let same : u ≡ s = cc in
      sym same
      ∙ snapshot_unchanged poll now read checked loaded h u before
          (ap (λ (x : Snapshot). x.generation) same ∙ g)
