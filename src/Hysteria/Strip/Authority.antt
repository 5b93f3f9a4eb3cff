-- ===== src/Hysteria/Strip/Authority.antt =====
-- `stripPortHopping`, and the port of a URI's authority.
use mathlib.Core.List.{append_assoc}
use workspace_cli.Hysteria.Hop.{contains, hop_base_port}
use workspace_cli.Hysteria.Hop.Pieces.{contains-append}
use workspace_cli.Hysteria.Hop.Spec.{HopSpec, hop_base_port-HopSpec}
use workspace_cli.Hysteria.Strip.{
  Stripped, hopped, span_authority, split_last, strip_host, strip_port_hopping, strip_rest,
  strip_spec, unchanged, user_and_host, cut_scheme,
}
use workspace_cli.Hysteria.Strip.Cuts.{
  Clear, IsTail, Last, NoSeparator, SchemeCut, colon_slashes, cut_scheme-append, extended, neither,
  span_authority-parts, span_authority-whole, split_last-Last, split_last-append, split_last-at,
  cut_scheme-SchemeCut, span_authority-append,
}
use workspace_cli.Prelude.{
  Bytes, Option, [], ap, false, none, refl, some, subst, sym, ◌++◌, ◌∙◌, ◌∷◌, ◌≡◌,
}

-- The URI has an authority, from its first "://" up to '/', '?', '#' or the end; the text behind the
-- last colon of the host, which is what follows the last '@' of the authority, is the port. The scheme
-- is what comes before "://", the name what comes before the port's colon.
abbrev pub HasPort : Bytes → Bytes → Bytes → Bytes → Bytes → Type 0
HasPort uri scheme name port tail =
    (uri ≡ scheme ++ (colon_slashes ++ ((name ++ 58 ∷ port) ++ tail)))
    × NoSeparator scheme (colon_slashes ++ ((name ++ 58 ∷ port) ++ tail))
    × Clear (name ++ 58 ∷ port)
    × IsTail tail
    × (contains 58 port ≡ false)
    × (contains 64 port ≡ false)

-- A stripped URI has a hop spec as its port, and in the normalized one its base stands in its place;
-- no other URI has such a port.
abbrev pub IsStripped : Bytes → Stripped → Type 0
IsStripped uri unchanged =
    (scheme name spec tail base_port : Bytes)
    → HasPort uri scheme name spec tail
    → HopSpec spec base_port
    → ⊥
IsStripped uri (hopped normalized spec) =
    (scheme : Bytes) × (name : Bytes) × (tail : Bytes) × (base_port : Bytes) × HasPort uri scheme
      name spec tail
    × HopSpec spec base_port
    × (normalized ≡ scheme ++ (colon_slashes ++ ((name ++ 58 ∷ base_port) ++ tail)))

-- What a run makes of a URI with a hop spec.
abbrev Hopped : Stripped → Bytes → Type 0
Hopped r spec = (n : Bytes) × (r ≡ hopped n spec)

strip_host-Hopped :
    (front name spec tail base_port : Bytes) (o : Option (Bytes × Bytes))
    → o ≡ some (name, spec)
    → HopSpec spec base_port
    → Hopped (strip_host front tail o) spec
unfolding strip_host strip_spec
strip_host-Hopped front name spec tail base_port o q h =
    let accepted = (hop_base_port-HopSpec spec base_port).1 h in
    (
      (front ++ name ++ 58 ∷ []) ++ base_port ++ tail,
      ap (strip_host front tail) q ∙ ap (strip_spec (front ++ name ++ 58 ∷ []) spec tail) accepted,
    )

-- The host of an authority, with or without userinfo.
user_and_host-port :
    (head name spec tail base_port : Bytes) (o : Option (Bytes × Bytes))
    → contains 58 spec ≡ false
    → HopSpec spec base_port
    → let (user, host) = user_and_host (name ++ 58 ∷ spec) (extended (58 ∷ spec) o) in
      Hopped (strip_host (head ++ user) tail (split_last 58 host)) spec
unfolding user_and_host
user_and_host-port head name spec tail base_port none c h =
    strip_host-Hopped (head ++ []) name spec tail base_port _ (split_last-at 58 name spec c) h
user_and_host-port head name spec tail base_port (some (user, host)) c h =
    strip_host-Hopped (head ++ (user ++ 64 ∷ [])) host spec tail base_port _
      (split_last-at 58 host spec c) h

strip_rest-port :
    (head name spec tail base_port rest : Bytes)
    → rest ≡ (name ++ 58 ∷ spec) ++ tail
    → Clear (name ++ 58 ∷ spec)
    → IsTail tail
    → contains 58 spec ≡ false
    → contains 64 spec ≡ false
    → HopSpec spec base_port
    → Hopped (strip_rest (some (head, rest))) spec
unfolding strip_rest contains
strip_rest-port head name spec tail base_port rest q c t d a h =
    let cut : span_authority rest ≡ (name ++ 58 ∷ spec, tail) =
      ap span_authority q ∙ span_authority-whole (name ++ 58 ∷ spec) tail c t in
    let (n, e) = user_and_host-port head name spec tail base_port (split_last 64 name) d h in
    (
      n,
      ap
            (λ (p : Bytes × Bytes).
              strip_host (head ++ (user_and_host p.0 (split_last 64 p.0)).0) p.1
                (split_last 58 (user_and_host p.0 (split_last 64 p.0)).1))
            cut
          ∙ ap
              (λ o.
                strip_host (head ++ (user_and_host (name ++ 58 ∷ spec) o).0) tail
                  (split_last 58 (user_and_host (name ++ 58 ∷ spec) o).1))
              (split_last-append 64 name (58 ∷ spec) a)
          ∙ e,
    )

-- Every URI with a hop spec as its port is stripped.
strip-Hopped :
    (uri scheme name spec tail base_port : Bytes)
    → HasPort uri scheme name spec tail
    → HopSpec spec base_port
    → Hopped (strip_port_hopping uri) spec
unfolding strip_port_hopping
strip-Hopped uri scheme name spec tail base_port (q, k, c, t, d, a) h =
    let rest = (name ++ 58 ∷ spec) ++ tail in
    let (n, e) =
      strip_rest-port (scheme ++ colon_slashes) name spec tail base_port rest refl c t d a h in
    (n, ap strip_port_hopping q ∙ ap strip_rest (cut_scheme-append scheme rest k) ∙ e)

-- What is known of a run that changes the URI.
abbrev Changed : Bytes → Stripped → Type 0
Changed uri unchanged = Unit
Changed uri (hopped n spec) = IsStripped uri (hopped n spec)

Clear-append : (x y : Bytes) → Clear (x ++ y) → Clear y
Clear-append [] y h = h
Clear-append (c ∷ cs) y h = Clear-append cs y h.1

-- The front of the port, by its parts.
front-parts :
    (scheme user name x tail : Bytes)
    → ((scheme ++ colon_slashes) ++ user ++ name ++ 58 ∷ []) ++ x ++ tail
      ≡ scheme ++ (colon_slashes ++ (((user ++ name) ++ 58 ∷ x) ++ tail))
front-parts scheme user name x tail =
    ap (λ t. t ++ x ++ tail)
      (ap (λ t. t ++ 58 ∷ []) (append_assoc (scheme ++ colon_slashes) user name)
        ∙ append_assoc (scheme ++ colon_slashes) (user ++ name) (58 ∷ []))
    ∙ ap (λ t. t ++ tail) (append_assoc (scheme ++ colon_slashes) ((user ++ name) ++ 58 ∷ []) x)
    ∙ append_assoc (scheme ++ colon_slashes) (((user ++ name) ++ 58 ∷ []) ++ x) tail
    ∙ append_assoc scheme colon_slashes ((((user ++ name) ++ 58 ∷ []) ++ x) ++ tail)
    ∙ ap (λ t. scheme ++ (colon_slashes ++ (t ++ tail))) (append_assoc (user ++ name) (58 ∷ []) x)

module _ (uri scheme user : Bytes) where
  strip_spec-Changed :
      (name spec tail : Bytes) (o : Option Bytes)
      → hop_base_port spec ≡ o
      → HasPort uri scheme (user ++ name) spec tail
      → Changed uri (strip_spec ((scheme ++ colon_slashes) ++ user ++ name ++ 58 ∷ []) spec tail o)
  unfolding strip_spec
  strip_spec-Changed name spec tail none h p = tt
  strip_spec-Changed name spec tail (some base_port) h p = (
    scheme,
    user ++ name,
    tail,
    base_port,
    p,
    (hop_base_port-HopSpec spec base_port).0 h,
    front-parts scheme user name base_port tail,
  )

  -- The authority is the userinfo and the host.
  strip_host-Changed :
      (host tail : Bytes) (o : Option (Bytes × Bytes))
      → uri ≡ scheme ++ (colon_slashes ++ ((user ++ host) ++ tail))
      → NoSeparator scheme (colon_slashes ++ ((user ++ host) ++ tail))
      → Clear (user ++ host)
      → IsTail tail
      → contains 64 host ≡ false
      → Last 58 host o
      → Changed uri (strip_host ((scheme ++ colon_slashes) ++ user) tail o)
  unfolding strip_host contains
  strip_host-Changed host tail none q k c t a l = tt
  strip_host-Changed host tail (some (name, spec)) q k c t a (p, d) =
      let split : user ++ host ≡ (user ++ name) ++ 58 ∷ spec =
        ap (λ x. user ++ x) (sym p) ∙ sym (append_assoc user name (58 ∷ spec)) in
      let clean =
        neither (contains 64 name) (contains 64 (58 ∷ spec))
          (sym (contains-append 64 name (58 ∷ spec)) ∙ ap (contains 64) p ∙ a) in
      strip_spec-Changed name spec tail (hop_base_port spec) refl (
        q ∙ ap (λ x. scheme ++ (colon_slashes ++ (x ++ tail))) split,
        subst (λ x. NoSeparator scheme (colon_slashes ++ (x ++ tail))) split k,
        subst Clear split c,
        t,
        d,
        clean.1,
      )

-- The userinfo, with its '@', and the host, in which no '@' is left.
user_and_host-parts :
    (authority : Bytes) (o : Option (Bytes × Bytes))
    → Last 64 authority o
    → let (user, host) = user_and_host authority o in
      (user ++ host ≡ authority) × (contains 64 host ≡ false)
unfolding user_and_host
user_and_host-parts authority none h = (refl, h)
user_and_host-parts authority (some (user, host)) (p, q) = (append_assoc user (64 ∷ []) host ∙ p, q)

strip_rest-Changed :
    (uri : Bytes) (o : Option (Bytes × Bytes)) → SchemeCut uri o → Changed uri (strip_rest o)
unfolding strip_rest
strip_rest-Changed uri none h = tt
strip_rest-Changed uri (some (head, rest)) (scheme, p, k, q) =
    let (authority, tail) = span_authority rest in
    let (user, host) = user_and_host authority (split_last 64 authority) in
    let (whole, a) =
      user_and_host-parts authority (split_last 64 authority) (split_last-Last 64 authority) in
    let (c, t) = span_authority-parts rest in
    let all : rest ≡ (user ++ host) ++ tail =
      sym (span_authority-append rest) ∙ ap (λ x. x ++ tail) (sym whole) in
    subst (λ h. Changed uri (strip_host (h ++ user) tail (split_last 58 host))) (sym p)
      (strip_host-Changed uri scheme user host tail (split_last 58 host)
        (sym q
          ∙ ap (λ x. x ++ rest) p
          ∙ append_assoc scheme colon_slashes rest
          ∙ ap (λ x. scheme ++ (colon_slashes ++ x)) all)
        (subst (λ x. NoSeparator scheme (colon_slashes ++ x)) all k) (subst Clear (sym whole) c) t a
        (split_last-Last 58 host))

strip-Changed : (uri : Bytes) → Changed uri (strip_port_hopping uri)
unfolding strip_port_hopping
strip-Changed uri = strip_rest-Changed uri (cut_scheme uri) (cut_scheme-SchemeCut uri)

either-way :
    (uri : Bytes) (r : Stripped) → strip_port_hopping uri ≡ r → Changed uri r → IsStripped uri r
either-way uri (hopped n spec) e h = h
either-way uri unchanged e h = λ scheme name spec tail base_port p s.
    let (n, f) = strip-Hopped uri scheme name spec tail base_port p s in
    let q : unchanged ≡ hopped n spec = sym e ∙ f in cc

-- A URI is changed exactly where the port of its authority is a hop spec. Then the spec is returned,
-- and in the URI its base port stands in its place: the front of the URI, up to the port's colon, and
-- all that follows the authority stay as they are.
pub strip_port_hopping-IsStripped : (uri : Bytes) → IsStripped uri (strip_port_hopping uri)
strip_port_hopping-IsStripped uri = either-way uri (strip_port_hopping uri) refl (strip-Changed uri)
