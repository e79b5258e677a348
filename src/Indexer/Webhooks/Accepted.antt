-- ===== src/Indexer/Webhooks/Accepted.antt =====
-- What a webhook has shown before it queues a job.
use Prim.Native.String.append.{nil, cons}
use repo_mcp.Prelude.{
  ℕ, zero, suc, ◌+◌, ◌-◌, String, ◌≡◌, refl, sym, ap, ◌∙◌, ◌≢◌, ◌⊎◌, inl, inr, true, false, Option,
  none, some, if◌then◌else◌, arith, eq_iff, Bool-cases, Option-cases, and_iff, ◌==◌, ℕ_eq,
  String_eq,
}
use repo_mcp.Prelude.Text.{◌<>◌, char_count}
use repo_mcp.Prelude.Value.{Value, str, truthy, null, bool, num, arr, obj}
use repo_mcp.Prelude.Result.{Result, ok, err, ◌>>◌, Result-cases, guard_iff}
use repo_mcp.Indexer.{Binding, Indexer, enqueue}
use repo_mcp.Indexer.Webhooks.{
  PushEvent, crash, Headers, verify_signature, verify_gitlab, verify_and_parse, is_deletion,
  Bindings, lookup_binding, on_default, job_of, accept, route, handle_event, webhook, ends_with,
  drop_chars,
}

-- The request has the provider's proof that it knows the secret.
pub data Signed (hmac : String → String → String) (provider body secret : String) (h : Headers)
    : Type 0 where
  by_github :
      provider ≡ "github"
      → h.github_sig ≡ some ("sha256=" <> hmac secret body)
      → Signed hmac provider body secret h
  by_gitlab :
      provider ≡ "gitlab" → h.gitlab_token ≡ some secret → Signed hmac provider body secret h
  by_bitbucket :
      provider ≡ "bitbucket"
      → h.bitbucket_sig ≡ some ("sha256=" <> hmac secret body)
      → Signed hmac provider body secret h

then-ok :
    {E A : Type 0} (m : Result E (Unit {0})) (k : Result E A) {a : A} → (m >> k) ≡ ok a → m ≡ ok tt
then-ok (ok u) k h = refl
then-ok (err e) k h = cc

signature-ok :
    (hmac : String → String → String) (body : String) (given : Option String) (secret : String)
    → verify_signature hmac body given secret ≡ ok tt
    → given ≡ some ("sha256=" <> hmac secret body)
unfolding verify_signature
signature-ok hmac body none secret h = cc
signature-ok hmac body (some signature) secret h = elim (Bool-cases (signature == "")) [
  | inl empty ↦ cc (rw empty at h)
  | inr full ↦ ap some (
      sym ((eq_iff ("sha256=" <> hmac secret body) signature).0 ((guard_iff _ _).0 (rw full at h))))
]

token-ok :
    (given : Option String) (secret : String)
    → verify_gitlab given secret ≡ ok tt
    → given ≡ some secret
unfolding verify_gitlab
token-ok none secret h = cc
token-ok (some token) secret h =
    ap some ((eq_iff token secret).0 ((and_iff _ _).0 ((guard_iff _ _).0 h)).1)

verify_and_parse-Signed :
    (hmac : String → String → String) (provider body secret : String) (h : Headers)
    (payload : Value) (event : PushEvent)
    → verify_and_parse hmac provider body secret h payload ≡ ok event
    → Signed hmac provider body secret h
unfolding verify_and_parse
verify_and_parse-Signed hmac provider body secret h payload event e =
    elim (Bool-cases (provider == "github")) [
      | inl g ↦
          by_github ((eq_iff provider "github").0 g)
            (signature-ok hmac body h.github_sig secret (then-ok _ _ (rw g at e)))
      | inr no_g ↦ elim (Bool-cases (provider == "gitlab")) [
        | inl l ↦
            by_gitlab ((eq_iff provider "gitlab").0 l)
              (token-ok h.gitlab_token secret (then-ok _ _ (rw (no_g, l) at e)))
        | inr no_l ↦ elim (Bool-cases (provider == "bitbucket")) [
          | inl b ↦ by_bitbucket ((eq_iff provider "bitbucket").0 b) (
              signature-ok hmac body h.bitbucket_sig secret (then-ok _ _ (rw (no_g, no_l, b) at e)))
          | inr no_b ↦ cc (rw (no_g, no_l, no_b) at e)
        ]
      ]
    ]

drop_chars-suffix :
    (n : ℕ) (text : String) → (before : String) × (text ≡ before <> drop_chars n text)
drop_chars-suffix zero text = ("", sym (λ i. nil text i))
drop_chars-suffix (suc n) String.[] = ("", refl)
drop_chars-suffix (suc n) (String.◌∷◌ c text) =
    let (before, e) = drop_chars-suffix n text in
    (
      String.◌∷◌ c before,
      ap (λ s. String.◌∷◌ c s) e ∙ sym (λ i. cons c before (drop_chars n text) i),
    )

ends_with-suffix :
    (text suffix : String)
    → ends_with text suffix ≡ true
    → (before : String) × (text ≡ before <> suffix)
unfolding ends_with
ends_with-suffix text suffix h =
    let (before, e) = drop_chars-suffix (char_count text - char_count suffix) text in
    let same = (eq_iff _ suffix).0 ((and_iff _ _).0 h).1 in (before, e ∙ ap (λ s. before <> s) same)

-- What the route takes for a push to the repository's default branch: there is no ref, or it ends in a
-- slash and the branch's name. Of refs/heads/main and refs/heads/release/main, both are to main.
pub data ToBranch (branch : String) (ref : Value) : Type 0 where
  no_ref : truthy ref ≡ false → ToBranch branch ref
  ends_in : (before : String) → ref ≡ str (before <> "/" <> branch) → ToBranch branch ref

not_text :
    (ref : Value) (branch : String)
    → (if truthy ref then err crash else ok true) ≡ ok true
    → ToBranch branch ref
not_text ref branch h = elim (Bool-cases (truthy ref)) [
  | inl given ↦ cc (rw given at h)
  | inr absent ↦ no_ref absent
]

on_default-ToBranch :
    (ref : Value) (b : Binding) → on_default ref b ≡ ok true → ToBranch b.default_branch ref
unfolding on_default truthy
on_default-ToBranch (str ref) b h = elim (Bool-cases (ref == "")) [
  | inl empty ↦ no_ref (rw empty refl)
  | inr full ↦
      let (before, e) = ends_with-suffix ref ("/" <> b.default_branch) (cc (rw full at h)) in
      ends_in before (ap str e)
]
on_default-ToBranch null b h = no_ref refl
on_default-ToBranch (bool true) b h = cc
on_default-ToBranch (bool false) b h = no_ref refl
on_default-ToBranch (num n) b h = not_text (num n) b.default_branch h
on_default-ToBranch (arr vs) b h = not_text (arr vs) b.default_branch h
on_default-ToBranch (obj fs) b h = not_text (obj fs) b.default_branch h

module _ (repr : Value → String) (hmac : String → String → String) (known discovered : Bindings)
    (provider body secret : String) (h : Headers) (payload : Value) (s : Indexer) where
  -- The push is signed, deletes nothing, is of a repository in scope and by its ref to the default
  -- branch, and its job is what the queue was given.
  pub record Accepted (s' : Indexer) : Type 0 where
    pub event : PushEvent
    pub binding : Binding
    pub signed : Signed hmac provider body secret h
    pub parsed : verify_and_parse hmac provider body secret h payload ≡ ok event
    pub kept : is_deletion event ≡ false
    pub found : lookup_binding known discovered event.full_name ≡ ok (some binding)
    pub branch : ToBranch binding.default_branch event.ref
    pub given : s' ≡ (enqueue (job_of repr provider event binding) s).0

  event-Accepted :
      (event : PushEvent)
      → verify_and_parse hmac provider body secret h payload ≡ ok event
      → ((handle_event repr known discovered provider (ok event) s).1 ≡ s)
        ⊎ Accepted (handle_event repr known discovered provider (ok event) s).1
  unfolding handle_event route accept
  event-Accepted event parsed = elim (Bool-cases (is_deletion event)) [
    | inl deletes ↦ rw deletes (inl refl)
    | inr kept ↦ rw kept (elim (Result-cases (lookup_binding known discovered event.full_name)) [
      | inl (e, failed) ↦ rw failed (inl refl)
      | inr (o, looked) ↦ elim (Option-cases o) [
        | inl nothing ↦ rw (looked, nothing) (inl refl)
        | inr (b, there) ↦ elim (Result-cases (on_default event.ref b)) [
          | inl (e, failed) ↦ rw (looked, there, route, failed) (inl refl)
          | inr (t, tested) ↦ elim (Bool-cases t) [
            | inr other ↦ rw (looked, there, route, tested, other) (inl refl)
            | inl here ↦
                rw (looked, there, route, tested, here)
                  (inr (record {
                    event = event;
                    binding = b;
                    signed =
                        verify_and_parse-Signed hmac provider body secret h payload event parsed;
                    parsed = parsed;
                    kept = kept;
                    found = looked ∙ ap ok there;
                    branch = on_default-ToBranch event.ref b (tested ∙ ap ok here);
                    given = refl;
                  }))
          ]
        ]
      ]
    ])
  ]

  -- A webhook request leaves the indexer as it was, or it bore the provider's proof of the secret,
  -- parsed as an event that deletes no branch, for a repository in scope, with no ref or with one that
  -- ends in a slash and the name of its default branch, whatever stands before them, and the new state
  -- is that of enqueueing the event's job.
  pub webhook-Accepted :
      ((webhook repr hmac known discovered provider body secret h payload s).1 ≡ s)
      ⊎ Accepted (webhook repr hmac known discovered provider body secret h payload s).1
  unfolding webhook handle_event
  webhook-Accepted = elim (Bool-cases (secret == "")) [
    | inl missing ↦ rw missing (inl refl)
    | inr configured ↦
        rw configured (elim (Result-cases (verify_and_parse hmac provider body secret h payload)) [
          | inr (event, parsed) ↦ rw parsed (event-Accepted event parsed)
          | inl (crash, failed) ↦ rw failed (inl refl)
          | inl (e, failed) ↦ rw failed (inl refl)
        ])
  ]

char_count-append : (s t : String) → char_count (s <> t) ≡ char_count s + char_count t
unfolding char_count
char_count-append String.[] t =
    let nothing : char_count ("" <> t) ≡ char_count t = λ i. char_count (nil t i) in
    omega (arith, nothing)
char_count-append (String.◌∷◌ c s) t =
    let one_more : char_count (String.◌∷◌ c s <> t) ≡ suc (char_count (s <> t)) =
      λ i. char_count (cons c s t i) in
    omega (arith, one_more, char_count-append s t)

ends_with-slash : (t : String) → ends_with t ("/" <> t) ≡ false
unfolding ends_with char_count
ends_with-slash t = ground (arith, char_count-append "/" t)

-- A ref that is the plain name of a repository's default branch, where that is not empty, is taken
-- for another branch.
pub on_default-plain :
    (b : Binding) → b.default_branch ≢ "" → on_default (str b.default_branch) b ≡ ok false
unfolding on_default
on_default-plain b named = elim (Bool-cases (b.default_branch == "")) [
  | inl empty ↦ absurd (named ((eq_iff b.default_branch "").0 empty))
  | inr full ↦ rw (full, ends_with-slash b.default_branch) refl
]
