-- ===== src/ConnectorCheck/Reports.antt =====
-- When the check of a connector succeeds, and what it reports.
use mathlib.Core.List.{}
use repo_mcp.Prelude.{
  ℕ, zero, suc, ◌≤◌, String, ◌≡◌, refl, sym, ◌∙◌, subst, ◌↔◌, eq_iff, ◌==◌, ◌≢◌, ◌⊎◌, inl, inr,
  Bool, true, Option, none, some, List, arith, leb, nat_eq, nat_eq_iff, Bool-cases, length, take,
  keep, ℕ_eq, String_eq,
}
use repo_mcp.Prelude.Result.{Result}
use repo_mcp.Indexer.Discovery.{DiscoveredRepo}
use repo_mcp.ConnectorCheck.{
  Reason, Ending, finished, Client, yields, Tally, CheckResult, report, no_tally, included,
  check_connector, check_client, lacks, unusable,
}
use repo_mcp.ConnectorCheck.Counted.{
  length-keep-le, is_chosen, is_idle, is_left_out, names_of, Enumerated, all_seen, cut_short,
  enumerate-Enumerated,
}

-- A token, a client that reads the provider's repositories up to the limit or to a good end, and among
-- those one at least that can be indexed and that the patterns select.
pub record Works (token : Option String) (client : Client) (include exclude : List String)
    (limit : ℕ) : Type 0 where
  pub given : String
  pub is_token : token ≡ some given
  pub named : given ≢ ""
  pub repos : List DiscoveredRepo
  pub ending : Ending
  pub built : client ≡ yields repos ending
  pub complete : (limit ≤ length repos) ⊎ (ending ≡ finished)
  pub found : 1 ≤ length (keep (is_chosen (included include) exclude) (take limit repos))

report-works :
    (include exclude : List String) (k : ℕ) (rs : List DiscoveredRepo) (ending : Ending)
    (result : Result Reason (Tally × Bool))
    → Enumerated include exclude (suc k) rs ending no_tally result
    → ((report result).works ≡ true) ↔ (
        ((suc k ≤ length rs) ⊎ (ending ≡ finished))
        × (1 ≤ length (keep (is_chosen include exclude) (take (suc k) rs))))
unfolding report
report-works include exclude k rs ending result (cut_short reason few other) =
    (λ h. cc, λ h. elim h.0 [ inl n ↦ absurd (omega arith) | inr e ↦ absurd (other e) ])
report-works include exclude k rs ending result (all_seen t complete c) =
    let seen = take (suc k) rs in
    let a = c.discovered in
    let b = c.matched in
    let le = length-keep-le (is_chosen include exclude) seen in
    elim (Bool-cases (nat_eq t.discovered 0)) [
      | inl nothing ↦
          let zero_seen = (nat_eq_iff t.discovered 0).0 nothing in
          rw (nothing, report) (λ h. cc, λ h. absurd (let n = h.1 in omega arith))
      | inr some_seen ↦ elim (Bool-cases (nat_eq t.matched 0)) [
        | inl nothing ↦
            let zero_kept = (nat_eq_iff t.matched 0).0 nothing in
            rw (some_seen, nothing, report) (λ h. cc, λ h. absurd (let n = h.1 in omega arith))
        | inr hit ↦
            let many : 1 ≤ t.matched = ground (arith, hit) in
            rw (some_seen, hit, report) (λ h. (complete, omega arith), λ h. refl)
      ]
    ]

module _ (token : String) (full : token ≢ "") (include exclude : List String) (k : ℕ) where
  check_client-works :
      (client : Client)
      → ((check_client include exclude (suc k) client).works ≡ true)
        ↔ Works (some token) client include exclude (suc k)
  check_client-works (lacks setting) = (λ h. cc, λ w. let e = w.built in cc)
  check_client-works (unusable message) = (λ h. cc, λ w. let e = w.built in cc)
  check_client-works (yields repos ending) =
      let done =
        enumerate-Enumerated (included include) exclude (suc k) k repos ending no_tally
          (omega arith) in
      let works = report-works (included include) exclude k repos ending _ done in
      (
        λ h.
            let (complete, found) = works.0 h in
            record {
              given = token;
              is_token = refl;
              named = full;
              repos = repos;
              ending = ending;
              built = refl;
              complete = complete;
              found = found;
            },
        λ w.
            let e = w.built in
            let these : w.repos ≡ repos = cc in
            let end_of : w.ending ≡ ending = cc in
            works.1 (
              elim w.complete [
                | inl n ↦ inl (subst (λ rs. suc k ≤ length rs) these n)
                | inr good ↦ inr (sym end_of ∙ good)
              ],
              subst
                  (λ rs. 1 ≤ length (keep (is_chosen (included include) exclude) (take (suc k) rs)))
                  these w.found,
            ),
      )

-- When the limit is at least one, the check of a connector succeeds exactly when there is a token, the
-- client can be built and yields as many repositories as the limit or comes to a good end, and one at
-- least of the first so many is neither archived nor empty and is selected by the patterns, where no
-- pattern to include is the pattern for all.
pub check_connector_iff :
    (token : Option String) (client : Client) (include exclude : List String) (limit : ℕ)
    → 1 ≤ limit
    → ((check_connector token client include exclude limit).works ≡ true)
      ↔ Works token client include exclude limit
unfolding check_connector
check_connector_iff none client include exclude limit some_room =
    (λ h. cc, λ w. let e = w.is_token in cc)
check_connector_iff (some token) client include exclude zero some_room = absurd (omega arith)
check_connector_iff (some token) client include exclude (suc k) some_room =
    elim (Bool-cases (token == "")) [
      | inl empty ↦ rw empty (
        λ h. cc,
        λ w.
            let e = w.is_token in
            let same : token ≡ w.given = cc in
            absurd (w.named (sym same ∙ (eq_iff token "").0 empty)),
      )
      | inr full ↦ rw full (
          check_client-works token (λ e. cc (full, (eq_iff token "").1 e)) include exclude k client)
    ]

-- The numbers and names of a result are those of the first repositories, up to the limit.
pub record Reported (include exclude : List String) (limit : ℕ) (repos : List DiscoveredRepo)
    (r : CheckResult) : Type 0 where
  pub discovered : r.discovered ≡ length (take limit repos)
  pub matched : r.matched ≡ length (keep (is_chosen include exclude) (take limit repos))
  pub skipped : r.skipped ≡ length (keep (is_idle include exclude) (take limit repos))
  pub sample :
      r.sample
      ≡ take 10 (names_of include exclude (keep (is_chosen include exclude) (take limit repos)))
  pub excluded :
      r.excluded
      ≡ take 10 (names_of include exclude (keep (is_left_out include exclude) (take limit repos)))
  pub truncated : r.truncated ≡ leb limit (length repos)

report-Reported :
    (include exclude : List String) (k : ℕ) (rs : List DiscoveredRepo) (ending : Ending)
    (result : Result Reason (Tally × Bool))
    → Enumerated include exclude (suc k) rs ending no_tally result
    → (report result).works ≡ true
    → Reported include exclude (suc k) rs (report result)
unfolding report
report-Reported include exclude k rs ending result (cut_short reason few other) h = cc
report-Reported include exclude k rs ending result (all_seen t complete c) h =
    elim (Bool-cases (nat_eq t.discovered 0)) [
      | inl nothing ↦ cc (rw (nothing, report) at h)
      | inr some_seen ↦ elim (Bool-cases (nat_eq t.matched 0)) [
        | inl nothing ↦ cc (rw (some_seen, nothing, report) at h)
        | inr hit ↦
            rw (some_seen, hit, report)
              (record {
                discovered = c.discovered ∙ omega arith;
                matched = c.matched ∙ omega arith;
                skipped = c.skipped ∙ omega arith;
                sample = c.sample;
                excluded = c.excluded;
                truncated = refl;
              })
      ]
    ]

-- A check that succeeds reports how many repositories there are among the first so many as the limit,
-- how many of these the patterns select, and how many are archived or empty, with the first ten names
-- of those selected and of those left out, and that the list was cut exactly when there are as many
-- repositories as the limit.
pub check_connector-Reported :
    (token : String) (repos : List DiscoveredRepo) (ending : Ending) (include exclude : List String)
    (limit : ℕ)
    → 1 ≤ limit
    → let r = check_connector (some token) (yields repos ending) include exclude limit in
      r.works ≡ true → Reported (included include) exclude limit repos r
unfolding check_connector
check_connector-Reported token repos ending include exclude zero some_room h = absurd (omega arith)
check_connector-Reported token repos ending include exclude (suc k) some_room h =
    elim (Bool-cases (token == "")) [
      | inl empty ↦ cc (rw empty at h)
      | inr full ↦ rw full (
          report-Reported (included include) exclude k repos ending _
            (enumerate-Enumerated (included include) exclude (suc k) k repos ending no_tally
              (omega arith))
            (rw full at h))
    ]
