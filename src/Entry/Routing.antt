-- ===== src/Entry/Routing.antt =====
-- cmd/cribe-bot/main.go: the routes of the HTTP server for health and profiling, with what it uses of
-- Go's `net/http`: a `ServeMux` whose patterns have no host. A request is its path; one with the
-- method CONNECT, whose path is not cleaned, is left out.
use Prim.Native.Char.{code}
use Prim.Native.String.{len}
use text.Mathlib.Text.{starts_with}
use cribe.Prelude.{
  String, ◌<>◌, Bool, true, false, Option, none, some, List, [], ◌∷◌, ◌≡◌, ◌==◌, ◌&&◌, ◌||◌, not,
  Bool-cases, eq_iff, nat_eq, ltb, lookup, refl, sym, arith, ◌⊎◌, inl, inr, if◌then◌else◌,
}
use cribe.Entry.{health}

-- What a mux answers: a handler, a redirect to another path, or 404.
pub data Reply (H : Type 0) : Type 0 where
  handled : H → Reply H
  moved : String → Reply H
  not_found : Reply H

-- strings.Split(path, "/")
abbrev first_longer : String → List String → List String
first_longer c [] = c ∷ []
first_longer c (s ∷ rest) = (c <> s) ∷ rest

unfoldable pub split_path : String → List String
split_path String.[] = "" ∷ []
split_path (String.◌∷◌ c path) =
    let rest = split_path path in
    if nat_eq (code c) (code "/") then "" ∷ rest else first_longer (String.◌∷◌ c "") rest

-- The elements of a path, the last first, as `path.Clean` keeps them of a rooted path.
abbrev kept : String → List String → List String
kept name [] = if name == "" || name == "." || name == ".." then [] else name ∷ []
kept name (last ∷ names) =
    if name == "" || name == "."
    then last ∷ names
    else if name == ".."
    then names
    else name ∷ last ∷ names

unfoldable pub clean_names : List String → List String → List String
clean_names names [] = names
clean_names names (name ∷ rest) = clean_names (kept name names) rest

unfoldable pub joined : List String → String
joined [] = ""
joined (name ∷ names) = joined names <> ("/" <> name)

unfoldable pub ends_with_slash : String → Bool
ends_with_slash String.[] = false
ends_with_slash (String.◌∷◌ c path) =
    let rest = ends_with_slash path in if path == "" then nat_eq (code c) (code "/") else rest

-- net/http's `cleanPath`: no empty element, no dots, and a slash at the end where there was one.
unfoldable pub clean_path : String → String
unfolding split_path clean_names joined ends_with_slash
clean_path path =
    let clean = joined (clean_names [] (split_path path)) in
    if clean == "" then "/" else if ends_with_slash path then clean <> "/" else clean

module _ {H : Type 0} where
  abbrev longer : String → H → Option (String × H) → Option (String × H)
  longer pattern h none = some (pattern, h)
  longer pattern h (some (q, g)) =
      if ltb (len pattern) (len q) then some (q, g) else some (pattern, h)

  -- Of the patterns that end in a slash, the longest that the path begins with.
  unfoldable pub longest : List (String × H) → String → Option (String × H)
  unfolding ends_with_slash
  longest [] path = none
  longest ((pattern, h) ∷ mux) path =
      let rest = longest mux path in
      if ends_with_slash pattern && starts_with path pattern then longer pattern h rest else rest

  abbrev reply : Option H → Option (String × H) → Reply H
  reply (some h) found = handled h
  reply none (some (pattern, h)) = handled h
  reply none none = not_found

  -- The pattern that is the path itself comes first.
  unfoldable pub handler : List (String × H) → String → Reply H
  unfolding longest
  handler mux path = reply (lookup path mux) (longest mux path)

  abbrev is_registered : List (String × H) → String → Bool
  is_registered mux path = elim (lookup path mux) [ none ↦ false | some h ↦ true ]

  -- ServeMux.Handler
  unfoldable pub route : List (String × H) → String → Reply H
  unfolding clean_path handler ends_with_slash
  route mux path =
      let clean = clean_path path in
      if not (is_registered mux clean)
        && (is_registered mux (clean <> "/") && not (ends_with_slash clean))
      then moved (clean <> "/")
      else if not (clean == path)
      then moved clean
      else handler mux path

-- A page of the server: a text, or one of `http.DefaultServeMux`, whose handlers are of type `H`.
pub data Page (H : Type 0) : Type 0 where
  written : String → Page H
  by_default : H → Page H

pub data Target : Type 0 where
  answers_health : Target
  default_serve_mux : Target

abbrev mux : List (String × Target)
mux = ("/health", answers_health) ∷ ("/debug/pprof/", default_serve_mux) ∷ []

Reply-cases :
    {H : Type 0} (r : Reply H)
    → ((h : H) × (r ≡ handled h)) ⊎ (((path : String) × (r ≡ moved path)) ⊎ (r ≡ not_found))
Reply-cases (handled h) = inl (h, refl)
Reply-cases (moved path) = inr (inl (path, refl))
Reply-cases not_found = inr (inr refl)

route-handler :
    {H : Type 0} (mux : List (String × H)) (path : String) (h : H)
    → route mux path ≡ handled h
    → handler mux path ≡ handled h
unfolding route
route-handler mux path h e = ground arith

handler-health : (path : String) → handler mux path ≡ handled answers_health → path ≡ "/health"
unfolding handler longest ends_with_slash
handler-health path e = ground (arith, eq_iff "/health" path, eq_iff "/debug/pprof/" path)

handler-default :
    (path : String)
    → handler mux path ≡ handled default_serve_mux
    → starts_with path "/debug/pprof/" ≡ true
unfolding handler longest ends_with_slash
handler-default path e = elim (Bool-cases ("/debug/pprof/" == path)) [
  | inl g ↦ rw (sym ((eq_iff "/debug/pprof/" path).0 g)) refl
  | inr g ↦ ground (arith, eq_iff "/health" path)
]

module _ {H : Type 0} (default_mux : List (String × H)) where
  abbrev nested : Reply H → Reply (Page H)
  nested (handled h) = handled (by_default h)
  nested (moved path) = moved path
  nested not_found = not_found

  abbrev answered : String → Reply Target → Reply (Page H)
  unfolding route
  answered path (handled answers_health) = handled (written health)
  answered path (handled default_serve_mux) = nested (route default_mux path)
  answered path (moved to) = moved to
  answered path not_found = not_found

  -- What the server answers to a request for a path.
  unfoldable pub serve_path : String → Reply (Page H)
  unfolding route
  serve_path path = answered path (route mux path)

  -- The server never serves a page of the default mux, on which the webhook's handler stands too, but for
  -- a path below "/debug/pprof/", and its own page for "/health" alone.
  serve_path-pages :
      (path : String) (page : Page H)
      → serve_path path ≡ handled page
      → ((path ≡ "/health") × (page ≡ written health))
        ⊎ ((h : H) × (starts_with path "/debug/pprof/" ≡ true)
            × (route default_mux path ≡ handled h)
            × (page ≡ by_default h))
  unfolding serve_path
  serve_path-pages path page h = elim (Reply-cases (route mux path)) [
    | inl (answers_health, e) ↦
        inl (handler-health path (route-handler mux path answers_health e), ground arith)
    | inl (default_serve_mux, e) ↦ elim (Reply-cases (route default_mux path)) [
      | inl (p, g) ↦
          inr
            (p, handler-default path (route-handler mux path default_serve_mux e), g, ground arith)
      | inr (inl (to, g)) ↦ ground arith
      | inr (inr g) ↦ ground arith
    ]
    | inr (inl (to, e)) ↦ ground arith
    | inr (inr e) ↦ ground arith
  ]
