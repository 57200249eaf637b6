-- ===== src/Client/Multipart.antt =====
-- `_encode_multipart_formdata` of cycletls/api.py. The boundary is random and a parameter; so are
-- `mimetypes.guess_type` and `str` of a number.
use cycletls_python.Base.{ℕ, String, List, [], ◌∷◌, ◌++◌, Option, none, or_default}
use cycletls_python.Dict.{Dict}
use cycletls_python.Errors.{error, value_error, Result, ok, err, ◌>>=◌}
use cycletls_python.Text.{join}
use cycletls_python.Text.Utf8.{encode}
use cycletls_python.Values.{Atom}
use cycletls_python.Url.{Printing, show}

-- What a file object reads, or the bytes or the text that stand in its place.
pub data Content : Type 0 where
  octets : List ℕ → Content
  words : String → Content

-- A value of `files`: a file object with or without a name, or a tuple: of the file's name and its
-- content, with or without a content type, or of another length.
pub data FileInfo : Type 0 where
  plain_file : Option String → Content → FileInfo
  named_file : String → Content → FileInfo
  typed_file : String → Content → Option String → FileInfo
  other_tuple : FileInfo

-- filename, file data and content type
pub record Part : Type 0 where
  pub filename : String
  pub content : Content
  pub content_type : Option String

-- the cases of file_info
unfoldable pub part_of : String → FileInfo → Result Part
part_of field_name (plain_file name content) =
    ok (record { filename = or_default name field_name; content = content; content_type = none })
part_of field_name (named_file name content) =
    ok (record { filename = name; content = content; content_type = none })
part_of field_name (typed_file name content type) =
    ok (record { filename = name; content = content; content_type = type })
part_of field_name other_tuple =
    err (error value_error (join ("Invalid file info format for field '" ∷ field_name ∷ "'" ∷ [])))

-- the bytes of a file
unfoldable pub content_bytes : Content → List ℕ
unfolding encode
content_bytes (octets bs) = bs
content_bytes (words s) = encode s

module _ ⦃p : Printing⦄ (guess_type : String → Option String) (boundary : String) where
  -- one form field
  unfoldable pub write_field : String × Atom → List ℕ
  unfolding encode join
  write_field e =
      encode (join ("--" ∷ boundary ∷ "\r\n" ∷ []))
      ++ encode (join ("Content-Disposition: form-data; name=\"" ∷ e.0 ∷ "\"\r\n\r\n" ∷ []))
      ++ encode (show e.1)
      ++ encode "\r\n"

  -- the loop over the fields
  unfoldable pub write_fields : Dict Atom → List ℕ
  unfolding write_field
  write_fields [] = []
  write_fields (e ∷ es) = write_field e ++ write_fields es

  -- the content type that is given or guessed
  unfoldable pub type_of : Part → String
  type_of part =
      or_default part.content_type
        (or_default (guess_type part.filename) "application/octet-stream")

  -- one file
  unfoldable pub write_part : String → Part → List ℕ
  unfolding encode join type_of content_bytes
  write_part field_name part =
      encode (join ("--" ∷ boundary ∷ "\r\n" ∷ []))
      ++ encode (
          join (
            "Content-Disposition: form-data; name=\"" ∷ field_name ∷ "\"; filename=\""
            ∷ part.filename ∷ "\"\r\n" ∷ []))
      ++ encode (join ("Content-Type: " ∷ type_of part ∷ "\r\n\r\n" ∷ []))
      ++ content_bytes part.content
      ++ encode "\r\n"

  -- the loop over the files
  unfoldable pub write_files : Dict FileInfo → Result (List ℕ)
  unfolding part_of write_part
  write_files [] = ok []
  write_files ((field_name, info) ∷ rest) = do
    part ← part_of field_name info
    others ← write_files rest
    ok (write_part field_name part ++ others)

  -- _encode_multipart_formdata: the body and its content type
  unfoldable pub encode_multipart : Dict Atom → Dict FileInfo → Result (List ℕ × String)
  unfolding write_fields write_files
  encode_multipart fields files = do
    parts ← write_files files
    ok (
      write_fields fields ++ parts ++ encode (join ("--" ∷ boundary ∷ "--\r\n" ∷ [])),
      join ("multipart/form-data; boundary=" ∷ boundary ∷ []),
    )
