-- ===== src/Routing/Objects.antt =====
-- The names of routes are apart, and a route that is put into the RIB is read back.
use Prim.Native.Char.{Char, code}
use mathlib.Core.Option.{some-injective}
use Prim.Native.String.{◌++◌ as append}
use ari.Base.{
  ℕ, zero, suc, String, ◌≡◌, refl, sym, ap, ◌∙◌, ◌≢◌, inl, inr, false, Option, none, some, arith,
  Option-cases, nat_key, string_key, ==_iff, ok,
}
use text.Mathlib.TextLemmas.{cons-append}
use ari.Text.{decimal}
use ari.Map.{get, insert, contains_key}
use ari.Map.Laws.{get-insert, get-insert_self, contains_key_lem}
use ari.Rib.Value.{RibObject, get_field, insert_field}
use ari.Rib.Store.{Rib, read, create, update, add, replace, new_object, renewed}
use ari.Routing.{static_name, dynamic_name, address_in, route_data, put_route, route_fields}

abbrev d : Char
d = "d"

abbrev s : Char
s = "s"

-- The character at a place.
char_at : ℕ → String → Option Char
char_at n String.[] = none
char_at zero (String.◌∷◌ c s) = some c
char_at (suc n) (String.◌∷◌ c s) = char_at n s

char_at-append :
    (n : ℕ) (x y : String) (c : Char) → char_at n x ≡ some c → char_at n (append x y) ≡ some c
unfolding char_at
char_at-append n String.[] y c h = cc
char_at-append zero (String.◌∷◌ b x) y c h = rw (cons-append b x y) h
char_at-append (suc n) (String.◌∷◌ b x) y c h = rw (cons-append b x y) (char_at-append n x y c h)

pub names_apart : (a b : ℕ) → dynamic_name a ≢ static_name b
unfolding char_at
names_apart a b e =
    let left : char_at 9 (dynamic_name a) ≡ some d =
      char_at-append 9 "/routing/dynamic/" (decimal a) d refl in
    let right : char_at 9 (static_name b) ≡ some s =
      char_at-append 9 "/routing/static/" (decimal b) s refl in
    let differ : some d ≡ some s = sym left ∙ ap (char_at 9) e ∙ right in
    let codes : code d ≡ code s = ap code (some-injective d s differ) in omega (arith, codes)

-- The structure of a route holds the text of its next hop.
pub address_in-route_fields :
    (text : String) (dst : ℕ) → address_in (some (route_fields text dst)) ≡ some text
unfolding route_fields insert_field get_field
address_in-route_fields text dst = refl

-- What `put_route` does, from what the RIB has under the name.
pub put_route_object :
    (rib : Rib) (dst : ℕ) (text : String) (now : ℕ)
    → (obj : RibObject) × (obj.value ≡ route_data text dst)
      × ((put_route rib dst text now).1 ≡ ok tt)
      × ((put_route rib dst text now).0.objects ≡ insert rib.objects (dynamic_name dst) obj)
unfolding put_route read create update add replace
put_route_object rib dst text now = elim (Option-cases (get rib.objects (dynamic_name dst))) [
  | inl missing ↦
      let absent : contains_key rib.objects (dynamic_name dst) ≡ false =
        ground (arith, contains_key_lem rib.objects (dynamic_name dst), missing) in
      (
        new_object rib (dynamic_name dst) "route" (route_data text dst) now,
        refl,
        rw (missing, put_route) (rw (absent, create) refl),
        rw (missing, put_route) (rw (absent, create) refl),
      )
  | inr (o, found) ↦ (
    renewed rib o (route_data text dst) now,
    refl,
    rw (found, put_route) (rw (found, update) refl),
    rw (found, put_route) (rw (found, update) refl),
  )
]

-- A route that is put into a RIB is read back, and no other object changes.
pub put_route_lem :
    (rib : Rib) (dst : ℕ) (text : String) (now : ℕ)
    → ((put_route rib dst text now).1 ≡ ok tt)
      × ((o : RibObject) × (read (put_route rib dst text now).0 (dynamic_name dst) ≡ some o)
          × (o.value ≡ route_data text dst))
      × ((k : String) → dynamic_name dst ≢ k → read (put_route rib dst text now).0 k ≡ read rib k)
unfolding read
put_route_lem rib dst text now =
    let (obj, holds, done, objects) = put_route_object rib dst text now in
    (
      done,
      (obj, rw objects (get-insert_self rib.objects (dynamic_name dst) obj), holds),
      λ k other. rw objects (
          ground (
            arith,
            get-insert rib.objects (dynamic_name dst) k obj,
            ==_iff (dynamic_name dst) k,
            other,
          )),
    )
