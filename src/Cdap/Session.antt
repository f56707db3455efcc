-- ===== src/Cdap/Session.antt =====
-- src/cdap.rs: `CdapSession`, which numbers the requests that it makes. Its RIB is an argument of
-- `process_message` instead.
use mathlib.Core.Path.{subst}
use ari.Base.{
  ℕ, ◌+◌, ◌<◌, String, ◌≡◌, refl, Option, none, some, List, [], ◌∷◌, arith, u64_mod, inc64, length,
  nat_key, string_key,
}
use ari.Rib.Value.{RibValue}
use ari.Cdap.{CdapMessage, new_request, create_op, read_op, write_op, delete_op, start_op}

pub record CdapSession : Type 0 where
  pub next_invoke_id : ℕ

abbrev pub new : CdapSession
new = record { next_invoke_id = 1 }

unfoldable pub next_invoke_id : CdapSession → CdapSession × ℕ
next_invoke_id s = (record { next_invoke_id = inc64 s.next_invoke_id }, s.next_invoke_id)

unfoldable pub create_request : CdapSession → String → String → RibValue → CdapSession × CdapMessage
unfolding next_invoke_id
create_request s name class value =
    let (s', id) = next_invoke_id s in (s', new_request create_op name (some class) (some value) id)

unfoldable pub read_request : CdapSession → String → CdapSession × CdapMessage
unfolding next_invoke_id
read_request s name = let (s', id) = next_invoke_id s in (s', new_request read_op name none none id)

unfoldable pub write_request : CdapSession → String → RibValue → CdapSession × CdapMessage
unfolding next_invoke_id
write_request s name value =
    let (s', id) = next_invoke_id s in (s', new_request write_op name none (some value) id)

unfoldable pub delete_request : CdapSession → String → CdapSession × CdapMessage
unfolding next_invoke_id
delete_request s name =
    let (s', id) = next_invoke_id s in (s', new_request delete_op name none none id)

unfoldable pub start_request : CdapSession → String → Option RibValue → CdapSession × CdapMessage
unfolding next_invoke_id
start_request s name value =
    let (s', id) = next_invoke_id s in (s', new_request start_op name none value id)

-- The requests of an application, one after the other.
pub data Request : Type 0 where
  creates : String → String → RibValue → Request
  reads : String → Request
  writes : String → RibValue → Request
  deletes : String → Request
  starts : String → Option RibValue → Request

unfoldable pub request : CdapSession → Request → CdapSession × CdapMessage
unfolding create_request read_request write_request delete_request start_request
request s (creates name class value) = create_request s name class value
request s (reads name) = read_request s name
request s (writes name value) = write_request s name value
request s (deletes name) = delete_request s name
request s (starts name value) = start_request s name value

unfoldable pub requests : CdapSession → List Request → List CdapMessage
unfolding request
requests s [] = []
requests s (r ∷ rs) = let (s', m) = request s r in m ∷ requests s' rs

-- A message for each request, numbered one after the other up to the end.
abbrev pub Numbered : ℕ → ℕ → List CdapMessage → Type 0
Numbered first end [] = first ≡ end
Numbered first end (m ∷ ms) = (m.invoke_id ≡ first) × Numbered (first + 1) end ms

request_next :
    (s : CdapSession) (r : Request)
    → ((request s r).0.next_invoke_id ≡ inc64 s.next_invoke_id)
      × ((request s r).1.invoke_id ≡ s.next_invoke_id)
unfolding request create_request read_request write_request delete_request start_request
    next_invoke_id
request_next s (creates name class value) = (refl, refl)
request_next s (reads name) = (refl, refl)
request_next s (writes name value) = (refl, refl)
request_next s (deletes name) = (refl, refl)
request_next s (starts name value) = (refl, refl)

-- The requests of a session, of whatever kinds, have consecutive numbers from the session's next
-- one on, until the 64-bit numbers wrap.
pub requests-Numbered :
    (s : CdapSession) (rs : List Request)
    → s.next_invoke_id + length rs < u64_mod
    → Numbered s.next_invoke_id (s.next_invoke_id + length rs) (requests s rs)
unfolding requests
requests-Numbered s [] room = omega arith
requests-Numbered s (r ∷ rs) room =
    let (next, own) = request_next s r in
    let step : (request s r).0.next_invoke_id ≡ s.next_invoke_id + 1 = ground (arith, next) in
    let s' : CdapSession = (request s r).0 in
    let later : Numbered (s.next_invoke_id + 1) (s.next_invoke_id + 1 + length rs)
        (requests s' rs) =
      subst (λ (n : ℕ). Numbered n (n + length rs) (requests s' rs)) step
        (requests-Numbered s' rs (omega arith)) in
    let same : s.next_invoke_id + 1 + length rs ≡ s.next_invoke_id + length (r ∷ rs) =
      omega arith in
    (own, subst (λ (n : ℕ). Numbered (s.next_invoke_id + 1) n (requests s' rs)) same later)
