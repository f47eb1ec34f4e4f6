-- ===== src/Auth/Origin.antt =====
-- `request_origin_allowed` of src/auth.cpp.
use ragger_cpp.Agent.Handle.{is_one_of}
use ragger_cpp.Prelude.{
  All, Bool, Bytes, List, [], ap, arith, codes, drop, false, find, if◌then◌else◌, length, lower,
  none, not, null, refl, some, starts_with, subst, suc, to_lower, true, ◌++◌, ◌+◌, ◌==◌, ◌∙◌, ◌∷◌,
  ◌≡◌,
}

-- `ieq`: equal up to the case of letters.
abbrev pub same_folded : Bytes → Bytes → Bool
same_folded (x ∷ a) (y ∷ b) = if not (to_lower x == to_lower y) then false else same_folded a b
same_folded _ _ = true

abbrev pub ieq : Bytes → Bytes → Bool
ieq a b = if not (length a == length b) then false else same_folded a b

abbrev pub safe_methods : List Bytes
safe_methods = codes "GET" ∷ codes "HEAD" ∷ codes "OPTIONS" ∷ []

abbrev pub scheme_end : Bytes
scheme_end = codes "://"

-- The origin without its scheme.
pub authority_of : Bytes → Bytes
authority_of origin = elim (find scheme_end origin) [
  | none ↦ origin
  | some sep ↦ drop (sep + 3) origin
]

unfoldable pub request_origin_allowed : Bytes → Bytes → Bytes → Bool
unfolding authority_of is_one_of
request_origin_allowed method origin host =
    if is_one_of method safe_methods
    then true
    else if null origin
    then true
    else if null (authority_of origin)
    then false
    else ieq (authority_of origin) host

ieq-lower : (a b : Bytes) → ieq a b ≡ true → lower a ≡ lower b
ieq-lower [] [] h = refl
ieq-lower [] (y ∷ b) h = ground arith
ieq-lower (x ∷ a) [] h = ground arith
ieq-lower (x ∷ a) (y ∷ b) h =
    let head : to_lower x ≡ to_lower y = ground arith in
    let tail : ieq a b ≡ true = ground arith in rw head (ap (◌∷◌ (to_lower y)) (ieq-lower a b tail))

find-scheme_end :
    (scheme authority : Bytes)
    → All (λ c. (c == b':') ≡ false) scheme
    → find scheme_end (scheme ++ (scheme_end ++ authority)) ≡ some (length scheme)
unfolding find starts_with
find-scheme_end [] authority h = refl
find-scheme_end (c ∷ scheme) authority h = ground (arith, h.0, find-scheme_end scheme authority h.1)

drop-scheme :
    (scheme authority : Bytes)
    → drop (length scheme + 3) (scheme ++ (scheme_end ++ authority)) ≡ authority
drop-scheme [] authority = refl
drop-scheme (c ∷ scheme) authority =
    ap (λ n. drop n (c ∷ (scheme ++ (scheme_end ++ authority)))) e ∙ drop-scheme scheme authority
  where
    e : suc (length scheme) + 3 ≡ suc (length scheme + 3)
    e = omega arith

authority_of-scheme :
    (scheme authority : Bytes)
    → All (λ c. (c == b':') ≡ false) scheme
    → authority_of (scheme ++ (scheme_end ++ authority)) ≡ authority
unfolding authority_of
authority_of-scheme scheme authority h =
    rw (find-scheme_end scheme authority h, authority_of) (drop-scheme scheme authority)

null-scheme : (scheme authority : Bytes) → null (scheme ++ (scheme_end ++ authority)) ≡ false
null-scheme [] authority = refl
null-scheme (c ∷ scheme) authority = refl

-- If a request whose method is not GET, HEAD or OPTIONS and whose origin is a scheme without a
-- colon, `://` and an authority is allowed, then the authority is not empty and, in lower
-- case, equal to the host.
pub request_origin_allowed-lower :
    (method scheme authority host : Bytes)
    → is_one_of method safe_methods ≡ false
    → All (λ c. (c == b':') ≡ false) scheme
    → request_origin_allowed method (scheme ++ (scheme_end ++ authority)) host ≡ true
    → (null authority ≡ false) × (lower authority ≡ lower host)
unfolding request_origin_allowed
request_origin_allowed-lower method scheme authority host m s h =
    let a = authority_of-scheme scheme authority s in
    let k : (if null authority then false else ieq authority host) ≡ true =
      subst (λ x. (if null x then false else ieq x host) ≡ true) a
        (ground (arith, m, null-scheme scheme authority, h)) in
    (ground (arith, k), ieq-lower authority host (ground (arith, k)))
