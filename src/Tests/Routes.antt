-- ===== src/Tests/Routes.antt =====
-- Requests for pages.
use cribe.Prelude.{String, List, [], ◌∷◌, ◌≡◌, refl}
use cribe.Entry.{health}
use cribe.Entry.Routing.{
  handled, moved, not_found, clean_path, split_path, clean_names, joined, ends_with_slash, longest,
  handler, route, written, by_default, serve_path,
}

-- What `net/http/pprof` registers, and the webhook of the token "token".
abbrev default_mux : List (String × String)
default_mux =
    ("/debug/pprof/", "index") ∷ ("/debug/pprof/profile", "profile") ∷ ("/token", "webhook") ∷ []

clean_test : clean_path "//a/./b/../c//" ≡ "/a/c/"
unfolding clean_path split_path clean_names joined ends_with_slash
clean_test = refl

health_test : serve_path default_mux "/health" ≡ handled (written health)
unfolding serve_path route handler longest clean_path split_path clean_names joined ends_with_slash
health_test = refl

profile_test : serve_path default_mux "/debug/pprof/profile" ≡ handled (by_default "profile")
unfolding serve_path route handler longest clean_path split_path clean_names joined ends_with_slash
profile_test = refl

heap_test : serve_path default_mux "/debug/pprof/heap" ≡ handled (by_default "index")
unfolding serve_path route handler longest clean_path split_path clean_names joined ends_with_slash
heap_test = refl

slash_test : serve_path default_mux "/debug/pprof" ≡ moved "/debug/pprof/"
unfolding serve_path route handler longest clean_path split_path clean_names joined ends_with_slash
slash_test = refl

webhook_test : serve_path default_mux "/token" ≡ not_found
unfolding serve_path route handler longest clean_path split_path clean_names joined ends_with_slash
webhook_test = refl

-- The listener of the webhook, on the default mux, gives the profiles as well.
exposed_test : route default_mux "/debug/pprof/profile" ≡ handled "profile"
unfolding route handler longest clean_path split_path clean_names joined ends_with_slash
exposed_test = refl
