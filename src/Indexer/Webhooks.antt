-- ===== src/Indexer/Webhooks.antt =====
-- indexer/app/webhooks.py and the webhook route of indexer/app/main.py: a push event is verified,
-- parsed, and queued for the repository that it names. HMAC-SHA256 and the text that Python prints
-- for a value that is no text are parameters; so is what a new discovery finds.
pub mod Accepted
mod Tests
use Prim.Native.String
use repo_mcp.Prelude.{
  ℕ, zero, suc, ◌+◌, ◌-◌, ◌*◌, ◌/◌, ◌%◌, ◌≤◌, ◌<◌, String, ◌≡◌, refl, sym, ap, ◌∙◌, subst, ◌≢◌, ◌↔◌,
  ◌⊎◌, inl, inr, Bool, true, false, not, ◌&&◌, ◌||◌, Option, none, some, List, [], ◌∷◌, ◌++◌, map,
  arith, eq_iff, ltb, leb, nat_eq, if◌then◌else◌, nat_eq_iff, Bool-cases, Option-cases, and_iff,
  or_iff, not_iff, Eq, ◌==◌, ℕ_eq, String_eq, length, take, length-append, any, all, keep, find,
  All, is_empty, not-In_of_is_empty, is_empty_of_not-In, is_empty-difference_iff, In-map-elim,
  In-map-intro, All-imp, In, In-append, In-keep, find-some, find-none, any-elim, any-intro,
  all-elim, all-intro, contains, difference, meets, subset, contains_iff, In-difference, meets_iff,
  subset_iff, lookup, insert, remove, lookup-insert, lookup-remove,
}
use repo_mcp.Prelude.Text.{◌<>◌, char_count}
use repo_mcp.Prelude.Value.{
  Value, null, bool, num, str, arr, obj, nil, cons, Fields, end, get, truthy, text_of,
}
use repo_mcp.Prelude.Result.{Result, ok, err, guard, required, ◌>>=◌, ◌>>◌}
use repo_mcp.Indexer.{Binding, IndexJob, Indexer, enqueue}

-- The values of a payload are not checked to be texts.
pub record PushEvent : Type 0 where
  pub full_name : Value
  pub sha : Value
  pub ref : Value
  pub provider : String

-- `WebhookError`, and `crash` for an exception that is none.
pub data WebhookError : Type 0 where
  missing_signature mismatch invalid_token no_changes unexpected_payload crash : WebhookError
  unsupported_provider : String → WebhookError

pub record Headers : Type 0 where
  pub github_sig : Option String
  pub bitbucket_sig : Option String
  pub gitlab_token : Option String

abbrev pub Check : Type 0 → Type 0
Check = Result WebhookError

-- `v[key]` with a text for the key: a `KeyError` or a `TypeError` otherwise
abbrev pub subscript : String → Value → Check Value
subscript k (obj fs) = required (get k fs) unexpected_payload
subscript k _ = err unexpected_payload

abbrev pub value_or : Option Value → Value → Value
value_or none d = d
value_or (some v) d = v

-- `v.get(key, d)`: an `AttributeError` of what is no mapping
abbrev pub get_from : String → Value → Value → Check Value
get_from k (obj fs) d = ok (value_or (get k fs) d)
get_from k _ d = err crash

-- `v or {}`
abbrev pub or_mapping : Value → Value
or_mapping v = if truthy v then v else obj end

-- `changes[0]` of what is not empty
abbrev pub first_of : Value → Check Value
first_of (arr (cons v vs)) = ok v
first_of (str s) = ok (str s)
first_of _ = err unexpected_payload

-- `_.endswith(suffix)`
abbrev pub drop_chars : ℕ → String → String
drop_chars zero text = text
drop_chars (suc n) String.[] = String.[]
drop_chars (suc n) (String.◌∷◌ c text) = drop_chars n text

unfoldable pub ends_with : String → String → Bool
ends_with text suffix =
    leb (char_count suffix) (char_count text)
    && drop_chars (char_count text - char_count suffix) text == suffix

abbrev pub null_sha : String
null_sha = "0000000000000000000000000000000000000000"

-- `verify_github` and `verify_bitbucket`
unfoldable pub verify_signature :
    (String → String → String) → String → Option String → String → Check (Unit {0})
verify_signature hmac body none secret = err missing_signature
verify_signature hmac body (some signature) secret =
    if signature == ""
    then err missing_signature
    else guard ("sha256=" <> hmac secret body == signature) mismatch

unfoldable pub verify_gitlab : Option String → String → Check (Unit {0})
verify_gitlab none secret = err invalid_token
verify_gitlab (some token) secret = guard (not (token == "") && token == secret) invalid_token

-- `parse_github` and `parse_gitlab`, which differ in where the name stands
unfoldable pub parse_push : String → String → String → Value → Check PushEvent
parse_push provider outer inner payload = do
  repository ← subscript outer payload
  full_name ← subscript inner repository
  sha ← get_from "after" payload (str "")
  ref ← get_from "ref" payload (str "")
  ok (record { full_name = full_name; sha = sha; ref = ref; provider = provider })

unfoldable pub parse_bitbucket : Value → Check PushEvent
parse_bitbucket payload = do
  push ← subscript "push" payload
  changes ← subscript "changes" push
  guard (truthy changes) no_changes
  first ← first_of changes
  new_value ← get_from "new" first null
  let new = or_mapping new_value
  repository ← subscript "repository" payload
  full_name ← subscript "full_name" repository
  target ← get_from "target" new null
  sha ← get_from "hash" (or_mapping target) (str "")
  ref ← get_from "name" new (str "")
  ok (record { full_name = full_name; sha = sha; ref = ref; provider = "bitbucket" })

unfoldable pub is_deletion : PushEvent → Bool
is_deletion event = not (truthy event.sha) || elim event.sha [ str s ↦ s == null_sha | _ ↦ false ]

-- `_verify_and_parse`
unfoldable pub verify_and_parse :
    (String → String → String) → String → String → String → Headers → Value → Check PushEvent
verify_and_parse hmac provider body secret h payload =
    if provider == "github"
    then (do
      verify_signature hmac body h.github_sig secret
      parse_push "github" "repository" "full_name" payload)
    else if provider == "gitlab"
    then (do
      verify_gitlab h.gitlab_token secret
      parse_push "gitlab" "project" "path_with_namespace" payload)
    else if provider == "bitbucket"
    then (do verify_signature hmac body h.bitbucket_sig secret; parse_bitbucket payload)
    else err (unsupported_provider provider)

abbrev pub Bindings : Type 0
Bindings = List (String × Binding)

abbrev either_of : Option Binding → Option Binding → Option Binding
either_of none later = later
either_of (some b) later = some b

-- `BindingCache.lookup`: what a new discovery finds is asked when the known bindings lack the name
unfoldable pub lookup_binding : Bindings → Bindings → Value → Check (Option Binding)
lookup_binding known discovered (str name) =
    ok (either_of (lookup name known) (lookup name discovered))
lookup_binding known discovered (arr vs) = err crash
lookup_binding known discovered (obj fs) = err crash
lookup_binding known discovered v = ok none

-- `not event.ref or event.ref.endswith(...)`
unfoldable pub on_default : Value → Binding → Check Bool
on_default (str ref) b = ok (ref == "" || ends_with ref ("/" <> b.default_branch))
on_default v b = if truthy v then err crash else ok true

pub data Reply : Type 0 where
  unconfigured deletion out_of_scope other_branch crashed : Reply
  rejected : WebhookError → Reply
  queued : Bool → String → Reply

abbrev pub job_of : (Value → String) → String → PushEvent → Binding → IndexJob
job_of repr provider event b = record {
  binding = b;
  sha = text_of repr event.sha;
  trigger = "webhook:" <> provider;
}

-- behind the test of the branch
unfoldable pub accept :
    (Value → String) → String → PushEvent → Binding → Check Bool → Indexer → Reply × Indexer
accept repr provider event b (err e) s = (crashed, s)
accept repr provider event b (ok false) s = (other_branch, s)
accept repr provider event b (ok true) s =
    let (s', fresh) = enqueue (job_of repr provider event b) s in (queued fresh b.project, s')

-- behind the lookup of the binding
unfoldable pub route :
    (Value → String) → String → PushEvent → Check (Option Binding) → Indexer → Reply × Indexer
route repr provider event (err e) s = (crashed, s)
route repr provider event (ok none) s = (out_of_scope, s)
route repr provider event (ok (some b)) s = accept repr provider event b (on_default event.ref b) s

-- behind the verification
unfoldable pub handle_event :
    (Value → String) → Bindings → Bindings → String → Check PushEvent → Indexer → Reply × Indexer
handle_event repr known discovered provider (err crash) s = (crashed, s)
handle_event repr known discovered provider (err e) s = (rejected e, s)
handle_event repr known discovered provider (ok event) s =
    if is_deletion event
    then (deletion, s)
    else route repr provider event (lookup_binding known discovered event.full_name) s

-- `POST /webhook/{provider}`, with the secret that the environment has for the provider
unfoldable pub webhook :
    (Value → String)
    → (String → String → String)
    → Bindings
    → Bindings
    → String
    → String
    → String
    → Headers
    → Value
    → Indexer
    → Reply × Indexer
webhook repr hmac known discovered provider body secret h payload s =
    if secret == ""
    then (unconfigured, s)
    else handle_event repr known discovered provider
        (verify_and_parse hmac provider body secret h payload) s
