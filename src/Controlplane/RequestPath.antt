-- ===== src/Controlplane/RequestPath.antt =====
-- The path checks of internal/controlplane/websocket_proxy.go. A string is its bytes; of
-- strings.ReplaceAll the model has the forms that the source uses, with one or two equal bytes.
pub mod Sanitized
pub mod Allowed
use pipeops_k8_agent.Prelude.{
  ℕ, zero, suc, Bool, true, false, not, ◌&&◌, ◌||◌, ◌==◌, List, [], ◌∷◌, ◌++◌, length,
  if◌then◌else◌,
}
use pipeops_k8_agent.Prelude.Bytes.{Bytes, codes}
use pipeops_k8_agent.Prelude.Text.{has_prefix}

abbrev pub dot : ℕ
dot = b'.'

abbrev pub slash : ℕ
slash = b'/'

-- strings.ReplaceAll(s, "c", "")
unfoldable pub remove_byte : ℕ → Bytes → Bytes
remove_byte c [] = []
remove_byte c (x ∷ s) = let rest = remove_byte c s in if x == c then rest else x ∷ rest

-- strings.ReplaceAll(s, "cc", new): the pairs are found from the left and do not overlap.
unfoldable pub replace_pair : ℕ → Bytes → Bytes → Bytes
replace_pair c new [] = []
replace_pair c new (x ∷ []) = x ∷ []
replace_pair c new (x ∷ y ∷ s) =
    let after = replace_pair c new s in
    let later = replace_pair c new (y ∷ s) in if x == c && y == c then new ++ after else x ∷ later

-- strings.Contains for one byte and for two equal bytes.
unfoldable pub contains : ℕ → Bytes → Bool
contains c [] = false
contains c (x ∷ s) = x == c || contains c s

unfoldable pub contains_pair : ℕ → Bytes → Bool
contains_pair c [] = false
contains_pair c (x ∷ []) = false
contains_pair c (x ∷ y ∷ s) = (x == c && y == c) || contains_pair c (y ∷ s)

-- `for strings.Contains(path, "//")`, with fuel.
unfoldable pub collapse : ℕ → Bytes → Bytes
collapse zero s = s
collapse (suc fuel) s =
    let rest = collapse fuel (replace_pair slash (slash ∷ []) s) in
    if contains_pair slash s then rest else s

-- The last step: a path that is not empty starts with a slash.
unfoldable pub ensure_slash : Bytes → Bytes
ensure_slash [] = []
ensure_slash (x ∷ s) = if x == slash then x ∷ s else slash ∷ x ∷ s

-- Each round takes a byte away at least, so as many rounds as there are bytes are enough.
unfoldable pub sanitize_url_path : Bytes → Bytes
sanitize_url_path path =
    let clean = replace_pair dot [] (remove_byte 0 (remove_byte 10 (remove_byte 13 path))) in
    ensure_slash (collapse (length clean) clean)

unfoldable pub sanitize_query_string : Bytes → Bytes
sanitize_query_string query = remove_byte 0 (remove_byte 10 (remove_byte 13 query))

abbrev pub allowed_prefixes : List Bytes
allowed_prefixes =
    codes "/api/"
    ∷ codes "/apis/"
    ∷ codes "/version"
    ∷ codes "/healthz"
    ∷ codes "/readyz"
    ∷ codes "/livez"
    ∷ codes "/openapi/"
    ∷ codes "/api"
    ∷ codes "/apis"
    ∷ []

unfoldable pub has_any_prefix : Bytes → List Bytes → Bool
has_any_prefix s [] = false
has_any_prefix s (p ∷ ps) = has_prefix s p || has_any_prefix s ps

unfoldable pub is_valid_k8s_api_path : Bytes → Bool
is_valid_k8s_api_path [] = false
is_valid_k8s_api_path (x ∷ s) =
    let path = x ∷ s in
    let clean = replace_pair slash (slash ∷ []) (replace_pair dot [] path) in
    has_prefix clean (slash ∷ [])
    && not (contains b'%' path || contains b'\\' path)
    && not (contains 13 path || contains 10 path)
    && has_any_prefix clean allowed_prefixes
