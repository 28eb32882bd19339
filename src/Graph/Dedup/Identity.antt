-- ===== src/Graph/Dedup/Identity.antt =====
-- When two files have one identifier.
use dgraphai.Prelude.{Bool, ap, false, if◌then◌else◌, refl, sym, ◌==◌, ◌∙◌}
use dgraphai.Graph.Dedup.{Props, get_or, is_valid_sha, make_node_id}
use dgraphai.Prelude.{String, true, ◌↔◌, ◌≡◌, ◌≢◌}
use text.Mathlib.TextLemmas.{append_cancel_left, cons-append}
use Prim.Native.Char.{Char, code}
use Prim.Native.String.{◌++◌ as append}

abbrev starts_with_s : String → Bool
starts_with_s String.[] = false
starts_with_s (String.◌∷◌ c s) = code c == b's'

abbrev s_char : Char
s_char = "s"

abbrev p_char : Char
p_char = "p"

-- Two texts with these prefixes differ in their first character.
prefixes_differ : (x y : String) → append "sha256:" x ≢ append "path:" y
prefixes_differ x y e =
    let f : true ≡ false =
      ap starts_with_s (sym (cons-append s_char "ha256:" x) ∙ e ∙ cons-append p_char "ath:" y) in
    absurd cc

-- The identifier, for both answers of the test.
abbrev id_of : (String → String) → String → String → Bool → String
id_of sha256 sha key valid = if valid then append "sha256:" sha else append "path:" (sha256 key)

same_content :
    (sha256 : String → String) (s t key : String) (valid : Bool)
    → append "sha256:" s ≡ id_of sha256 t key valid
    → s ≡ t
same_content sha256 s t key true e = append_cancel_left "sha256:" s t e
same_content sha256 s t key false e = absurd (prefixes_differ s (sha256 key) e)

valid_id :
    (sha256 : String → String) (a : Props) (sha : String)
    → get_or a.sha256 "" ≡ sha
    → is_valid_sha sha ≡ true
    → make_node_id sha256 a ≡ append "sha256:" sha
unfolding make_node_id
valid_id sha256 a sha e valid = rw (e, valid) refl

-- A file with a valid SHA-256 shares its identifier with exactly the files of the same SHA-256,
-- whatever their connectors and paths; no identifier of a path is one of a content.
pub make_node_id_lem :
    (sha256 : String → String) (a b : Props)
    → is_valid_sha (get_or a.sha256 "") ≡ true
    → (make_node_id sha256 a ≡ make_node_id sha256 b) ↔ (get_or a.sha256 "" ≡ get_or b.sha256 "")
unfolding make_node_id
make_node_id_lem sha256 a b valid = (
  λ e.
      same_content sha256 (get_or a.sha256 "") (get_or b.sha256 "")
        (append (get_or b.connector_id "") (append ":" (get_or b.path "")))
        (is_valid_sha (get_or b.sha256 ""))
        (sym (valid_id sha256 a (get_or a.sha256 "") refl valid) ∙ e),
  λ e.
      valid_id sha256 a (get_or b.sha256 "") e (rw⁻¹ e valid)
      ∙ sym (valid_id sha256 b (get_or b.sha256 "") refl (rw⁻¹ e valid)),
)
