-- ===== src/Pipeline/Checkpoint/Identifiers.antt =====
-- internal/cluster/pipeline_graph_state.go and store.go: the shapes of digests and job IDs.
use context_bridge.Prelude.{ℕ, Bool, true, false, not, ◌&&◌, ◌||◌, [], ◌∷◌, leb, ◌==◌, length}
use context_bridge.Text.{Text}

abbrev pub is_hex : ℕ → Bool
is_hex c = (leb b'0' c && leb c b'9') || (leb b'a' c && leb c b'f') || (leb b'A' c && leb c b'F')

abbrev pub is_alphanumeric : ℕ → Bool
is_alphanumeric c =
    (leb b'a' c && leb c b'z') || (leb b'A' c && leb c b'Z') || (leb b'0' c && leb c b'9')

unfoldable pub all_chars : (ℕ → Bool) → Text → Bool
all_chars p [] = true
all_chars p (c ∷ cs) = p c && all_chars p cs

-- validSHA256: 64 hexadecimal digits.
unfoldable pub valid_sha256 : Text → Bool
unfolding all_chars
valid_sha256 s = length s == 64 && all_chars is_hex s

abbrev starts_dot : Text → Bool
starts_dot [] = false
starts_dot (d ∷ ds) = d == b'.'

-- strings.Contains(value, "..").
unfoldable pub has_dots : Text → Bool
has_dots [] = false
has_dots (c ∷ cs) = (c == b'.' && starts_dot cs) || has_dots cs

abbrev first_ok : Text → Bool
first_ok [] = false
first_ok (c ∷ cs) =
    is_alphanumeric c
    && all_chars (λ d. is_alphanumeric d || d == b'.' || d == b'_' || d == b'-') cs

-- validJobID. Only ASCII passes, so characters and bytes count alike.
unfoldable pub valid_job_id : Text → Bool
unfolding has_dots all_chars
valid_job_id s = leb 1 (length s) && leb (length s) 128 && not (has_dots s) && first_ok s
