-- ===== src/Gateway/Auth.antt =====
-- internal/gateway/auth.go: the bearer tokens.
use velocity_gateway.Common.{
  ◌≡◌, refl, sym, ap, ◌∙◌, subst, ◌↔◌, Bool, true, false, ◌||◌, Text, codes, text_eq, mem_text,
  List, [], ◌++◌, Option, none, some, if◌then◌else◌, Bool-cases, inl, inr, arith,
}
use velocity_gateway.Gateway.Text.{
  trim_space, strip_prefix, strip_prefix-append, strip_prefix_sound,
}

-- What the middleware does with a request: it passes it on, with a key or without, or answers 401.
pub data Access : Type 0 where
  anonymous missing_token invalid_key : Access
  authorized : Text → Access

abbrev pub prefix : Text
prefix = codes "Bearer "

-- `/health` and `/metrics`
unfoldable pub is_open : Text → Bool
is_open path = text_eq path (codes "/health") || text_eq path (codes "/metrics")

unfoldable pub check_key : List Text → Option Text → Access
check_key allowed none = missing_token
check_key allowed (some token) =
    let key = trim_space token in if mem_text key allowed then authorized key else invalid_key

unfoldable pub api_key_auth : List Text → Text → Text → Access
unfolding is_open check_key
api_key_auth allowed path header =
    if is_open path then anonymous else check_key allowed (strip_prefix prefix header)

-- `APIKeyFromContext`
unfoldable pub api_key_of : Access → Text
api_key_of (authorized key) = key
api_key_of _ = []

check_key_sound :
    (allowed : List Text) (o : Option Text) (key : Text)
    → check_key allowed o ≡ authorized key
    → (token : Text) × (o ≡ some token) × (trim_space token ≡ key) × (mem_text key allowed ≡ true)
unfolding check_key
check_key_sound allowed none key h = cc
check_key_sound allowed (some token) key h =
    elim (Bool-cases (mem_text (trim_space token) allowed)) [
      | inl m ↦ (token, refl, ground arith, ground arith)
      | inr n ↦ absurd (ground arith)
    ]

check_key_complete :
    (allowed : List Text) (token : Text)
    → mem_text (trim_space token) allowed ≡ true
    → check_key allowed (some token) ≡ authorized (trim_space token)
unfolding check_key
check_key_complete allowed token h = ground arith

-- What a request must bring to be let in under a key.
abbrev pub Brings : List Text → Text → Text → Text → Type 0
Brings allowed path header key =
    (is_open path ≡ false)
    × ((token : Text) × (header ≡ prefix ++ token)
        × (trim_space token ≡ key)
        × (mem_text key allowed ≡ true))

-- A request is let in under a key exactly if its path is neither `/health` nor `/metrics` and its
-- `Authorization` header is "Bearer " with a token after it that is, less the spaces around it, the
-- key, and the key is one of those that are allowed.
pub api_key_auth_iff :
    (allowed : List Text) (path header key : Text)
    → (api_key_auth allowed path header ≡ authorized key) ↔ Brings allowed path header key
unfolding api_key_auth
api_key_auth_iff allowed path header key = (forth, back)
  where
    forth : api_key_auth allowed path header ≡ authorized key → Brings allowed path header key
    forth h = elim (Bool-cases (is_open path)) [
      | inl open_path ↦ absurd (ground arith)
      | inr guarded ↦
          let (token, e, trimmed, member) =
            check_key_sound allowed (strip_prefix prefix header) key (ground arith) in
          (guarded, (token, strip_prefix_sound prefix header token e, trimmed, member))
    ]

    back : Brings allowed path header key → api_key_auth allowed path header ≡ authorized key
    back (guarded, (token, e, trimmed, member)) =
        let found : check_key allowed (strip_prefix prefix header) ≡ authorized key =
          ap (λ x. check_key allowed (strip_prefix prefix x)) e
          ∙ ap (check_key allowed) (strip_prefix-append prefix token)
          ∙ check_key_complete allowed token
              (subst (λ k. mem_text k allowed ≡ true) (sym trimmed) member)
          ∙ ap authorized trimmed in
        rw (guarded, is_open) found
