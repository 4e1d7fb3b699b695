-- ===== src/Package.antt =====
-- bindings/python/par_runtime/__init__.py: the names that the package offers, and its version.
use par.Prelude.{String, Bool, true, false, not, ◌&&◌, ◌||◌, ◌≡◌, refl, List, [], ◌∷◌, ◌++◌, ◌==◌}

-- What it imports from `_errors`, `runtime` and `content`.
abbrev pub errors : List String
errors = "PARError" ∷ "PARInitError" ∷ "PARInvokeError" ∷ "PARToolError" ∷ "PARWorkflowError" ∷ []

abbrev pub runtime : List String
runtime =
    "Runtime" ∷ "Done" ∷ "Event" ∷ "ReasoningDelta" ∷ "ReasoningSignature" ∷ "TextDelta"
    ∷ "ToolCallStart" ∷ "ToolCallDelta" ∷ "UsageUpdate" ∷ []

abbrev pub content : List String
content =
    "MAX_IMAGE_BYTES" ∷ "SUPPORTED_IMAGE_MEDIA_TYPES" ∷ "ContentBlock" ∷ "ImageDetail"
    ∷ "ImageError" ∷ "image_base64" ∷ "image_file" ∷ "image_url" ∷ "text" ∷ []

-- `__version__`
abbrev pub package_version : String
package_version = "0.15.0-beta.20261104"

-- `__all__`
abbrev pub exported : List String
exported =
    "Runtime" ∷ "ContentBlock" ∷ "ImageDetail" ∷ "ImageError" ∷ "MAX_IMAGE_BYTES"
    ∷ "SUPPORTED_IMAGE_MEDIA_TYPES" ∷ "text" ∷ "image_url" ∷ "image_base64" ∷ "image_file" ∷ "Done"
    ∷ "Event" ∷ "TextDelta" ∷ "ReasoningDelta" ∷ "ReasoningSignature" ∷ "ToolCallStart"
    ∷ "ToolCallDelta" ∷ "UsageUpdate" ∷ "PARError" ∷ "PARInitError" ∷ "PARInvokeError"
    ∷ "PARToolError" ∷ "PARWorkflowError" ∷ []

has : String → List String → Bool
has name [] = false
has name (x ∷ xs) = x == name || has name xs

all_in : List String → List String → Bool
unfolding has
all_in [] names = true
all_in (x ∷ xs) names = has x names && all_in xs names

is_distinct : List String → Bool
unfolding has
is_distinct [] = true
is_distinct (x ∷ xs) = not (has x xs) && is_distinct xs

-- Every exported name is imported, every imported one is exported, and none stands there twice.
exported_imported :
    (all_in exported (errors ++ runtime ++ content) ≡ true)
    × (all_in (errors ++ runtime ++ content) exported ≡ true)
    × (is_distinct exported ≡ true)
unfolding all_in is_distinct
exported_imported = (refl, refl, refl)
