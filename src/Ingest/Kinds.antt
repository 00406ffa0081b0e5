-- ===== src/Ingest/Kinds.antt =====
-- extractor.go: the kind of a document by its content type and its name. What is read from the formats
-- is not modelled.
use nexus_local.Prelude.{ℕ, List, [], ◌∷◌, Bool, ◌||◌, Option, none, some, is_some, if◌then◌else◌}
use nexus_local.Result.{Result, ok, err, unsupported_document_type}
use nexus_local.Text.{Text, text, text_eq, trim_space, to_lower, split, has_prefix}
use nexus_local.Text.Paths.{ext}

pub data Kind : Type 0 where
  kind_text : Kind
  kind_pdf : Kind
  kind_docx : Kind
  kind_pptx : Kind
  kind_xlsx : Kind

abbrev pub head : List Text → Text
head [] = []
head (t ∷ ts) = t

-- The case table of `unicode` beyond ASCII.
module _ (table : ℕ → ℕ) where
  -- strings.ToLower(strings.TrimSpace(strings.Split(contentType, ";")[0]))
  unfoldable pub media_type : Text → Text
  media_type content_type = to_lower table (trim_space (head (split content_type b';')))

  unfoldable pub extension : Text → Text
  extension name = to_lower table (ext name)

  unfoldable pub is_text_extension : Text → Bool
  is_text_extension e =
      text_eq e (text ".txt")
      || text_eq e (text ".md")
      || text_eq e (text ".json")
      || text_eq e (text ".html")
      || text_eq e (text ".htm")
      || text_eq e (text ".csv")
      || text_eq e (text ".tsv")
      || text_eq e (text ".vtt")

  unfoldable pub looks_text_like : Text → Text → Bool
  unfolding media_type extension is_text_extension
  looks_text_like name content_type =
      let media = media_type content_type in
      has_prefix media (text "text/")
      || text_eq media (text "application/json")
      || text_eq media (text "application/xml")
      || text_eq media (text "application/xhtml+xml")
      || is_text_extension (extension name)

  -- `none` is the empty kind.
  unfoldable pub detect_kind : Text → Text → Option Kind
  unfolding looks_text_like
  detect_kind name content_type =
      let media = media_type content_type in
      let e = extension name in
      if text_eq media (text "application/pdf") || text_eq e (text ".pdf")
      then some kind_pdf
      else if text_eq media
            (text "application/vnd.openxmlformats-officedocument.wordprocessingml.document")
          || text_eq e (text ".docx")
      then some kind_docx
      else if text_eq media
            (text "application/vnd.openxmlformats-officedocument.presentationml.presentation")
          || text_eq e (text ".pptx")
      then some kind_pptx
      else if text_eq media
            (text "application/vnd.openxmlformats-officedocument.spreadsheetml.sheet")
          || text_eq e (text ".xlsx")
      then some kind_xlsx
      else if looks_text_like name content_type
      then some kind_text
      else none

  unfoldable pub validate_document_type : Text → Text → Result (Unit {0})
  unfolding detect_kind
  validate_document_type name content_type =
      if is_some (detect_kind name content_type) then ok tt else err unsupported_document_type
