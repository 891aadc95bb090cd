-- ===== src/Gateway/Usage.antt =====
-- internal/gateway/gateway.go: the token usage in a stream of SSE lines. `unmarshal` stands for
-- json.Unmarshal into the chunk struct: `none` is an error, `some none` a chunk with no usage.
use routecat.Prelude.{Bool, List, Option, [], find, if◌then◌else◌, none, not, some, ◌||◌, ◌∷◌}
use routecat.Prelude.Int.{pos, ℤ}
use routecat.Text.{Text, codes, contains, is_nil, newline, split, text_eq, trim_prefix, trim_space}

abbrev pub Unmarshal : Type 0
Unmarshal = Text → Option (Option (ℤ × ℤ))

abbrev pub quoted_usage : Text
quoted_usage = codes "\"usage\""

-- A line as the loop body looks at it, trimmed and without its SSE prefix.
unfoldable pub clean_line : Text → Text
unfolding trim_space trim_prefix
clean_line line =
    trim_space (trim_prefix (trim_prefix (trim_space line) (codes "data: ")) (codes "data:"))

-- The lines that the loop passes over: empty, the end mark, or without the word usage.
unfoldable pub is_skipped : Text → Bool
unfolding is_nil text_eq contains
is_skipped line =
    is_nil line || text_eq line (codes "[DONE]") || not (contains line (codes "usage"))

-- The usage of one line, if it is valid JSON with a usage object.
unfoldable pub line_usage : Unmarshal → Text → Option (ℤ × ℤ)
unfolding clean_line is_skipped
line_usage unmarshal line =
    if is_skipped (clean_line line) then none else (elim (unmarshal (clean_line line)) [
      | none ↦ none
      | some none ↦ none
      | some (some usage) ↦ some usage
    ])

unfoldable pub first_usage : Unmarshal → List Text → ℤ × ℤ
unfolding line_usage
first_usage unmarshal [] = (pos 0, pos 0)
first_usage unmarshal (line ∷ lines) =
    let rest = first_usage unmarshal lines in
    elim (line_usage unmarshal line) [ none ↦ rest | some usage ↦ usage ]

unfoldable pub parse_usage : Unmarshal → Text → ℤ × ℤ
unfolding first_usage split
parse_usage unmarshal sse_data = first_usage unmarshal (split newline sse_data)

-- The chunk that a stream's usage is read from: the first line of the data that mentions it.
unfoldable pub usage_line : Text → Option Text
unfolding contains split
usage_line chunk =
    if contains chunk quoted_usage
    then find (λ line. contains line quoted_usage) (split newline chunk)
    else none
