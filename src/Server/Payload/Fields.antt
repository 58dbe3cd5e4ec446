-- ===== src/Server/Payload/Fields.antt =====
-- What a request in Anthropic's protocol holds when it is sent on.
use Prim.Native.String.{◌++◌ as str_append}
use claude_code_gateway.Prelude.{
  ap, ℕ, String, Bool, true, Option, none, some, List, ◌≡◌, inl, inr, arith, ◌∙◌, if◌then◌else◌,
  ◌==◌, string_eq, ◌||◌, ◌&&◌, Option-cases,
}
use text.Mathlib.TextEquality.{eq_iff}
use claude_code_gateway.Prelude.Floats.{Floats}
use claude_code_gateway.Prelude.GoMap.{GoMap, get, put, delete, get-put, get-delete}
use claude_code_gateway.Core.Request.{MessagesRequest}
use claude_code_gateway.Provider.Registry.{Target, Upstream}
use claude_code_gateway.Provider.Transform.{TransformFunc}
use claude_code_gateway.Server.Payload.{
  Json, build_payload, native_fields, native_path, aws_escape, patch_model_body, is_native,
  with_version,
}

-- Bedrock and Vertex name the model in the path, and the version in the payload.
abbrev pub names_in_path : String → Bool
names_in_path kind = kind == "bedrock" || kind == "vertex"

abbrev pub is_dropped : String → String → Bool
is_dropped kind k =
    names_in_path kind && ("model" == k || "metadata" == k) || kind == "bedrock" && "stream" == k

abbrev pub or_else : String → Option String → String
or_else v none = v
or_else v (some w) = w

module _ (F : Floats) (json : Json F) where
  -- A field of the request that is sent, by those of the client's.
  abbrev pub sent_field : Upstream → String → GoMap String String → String → Option String
  sent_field u model raw k =
      if names_in_path u.cfg.kind && "anthropic_version" == k
      then some (or_else (json.encode_text u.cfg.anthropic_version) (get raw "anthropic_version"))
      else if is_dropped u.cfg.kind k
      then none
      else if "model" == k
      then some (json.encode_text model)
      else get raw k

  get-with_version :
      (version : String) (r : GoMap String String) (k : String)
      → get (with_version F json version r) k ≡ (
          if "anthropic_version" == k
          then some (or_else (json.encode_text version) (get r "anthropic_version"))
          else get r k)
  get-with_version version r k = elim (Option-cases (get r "anthropic_version")) [
    | inl missing ↦
        ground (arith, missing, get-put r "anthropic_version" k (json.encode_text version))
    | inr (w, found) ↦ ground (arith, found, eq_iff "anthropic_version" k)
  ]

  without_bedrock :
      (t : String) (raw : GoMap String String) (k : String)
      → get (delete (delete (delete (put raw "model" t) "model") "stream") "metadata") k
        ≡ (if "metadata" == k || "stream" == k || "model" == k then none else get raw k)
  without_bedrock t raw k =
      let m : GoMap String String = put raw "model" t in
      ground (
        arith,
        get-delete (delete (delete m "model") "stream") "metadata" k,
        get-delete (delete m "model") "stream" k,
        get-delete m "model" k,
        get-put raw "model" k t,
      )

  without_vertex :
      (t : String) (raw : GoMap String String) (k : String)
      → get (delete (delete (put raw "model" t) "model") "metadata") k
        ≡ (if "metadata" == k || "model" == k then none else get raw k)
  without_vertex t raw k =
      let m : GoMap String String = put raw "model" t in
      ground (
        arith,
        get-delete (delete m "model") "metadata" k,
        get-delete m "model" k,
        get-put raw "model" k t,
      )

  bedrock_fields :
      (version t : String) (raw : GoMap String String) (k : String)
      → get
          (with_version F json version
            (delete (delete (delete (put raw "model" t) "model") "stream") "metadata"))
          k
        ≡ (if "anthropic_version" == k
            then some (or_else (json.encode_text version) (get raw "anthropic_version"))
            else if "metadata" == k || "stream" == k || "model" == k
            then none
            else get raw k)
  bedrock_fields version t raw k =
      get-with_version version
        (delete (delete (delete (put raw "model" t) "model") "stream") "metadata") k
      ∙ ground (arith, without_bedrock t raw k, without_bedrock t raw "anthropic_version")

  vertex_fields :
      (version t : String) (raw : GoMap String String) (k : String)
      → get (with_version F json version (delete (delete (put raw "model" t) "model") "metadata")) k
        ≡ (if "anthropic_version" == k
            then some (or_else (json.encode_text version) (get raw "anthropic_version"))
            else if "metadata" == k || "model" == k
            then none
            else get raw k)
  vertex_fields version t raw k =
      get-with_version version (delete (delete (put raw "model" t) "model") "metadata") k
      ∙ ground (arith, without_vertex t raw k, without_vertex t raw "anthropic_version")

  native_fields-sent_field :
      (u : Upstream) (model : String) (raw : GoMap String String) (k : String)
      → get (native_fields F json u (put raw "model" (json.encode_text model))) k
        ≡ sent_field u model raw k
  unfolding native_fields
  native_fields-sent_field u model raw k = ground (
    arith,
    bedrock_fields u.cfg.anthropic_version (json.encode_text model) raw k,
    vertex_fields u.cfg.anthropic_version (json.encode_text model) raw k,
    get-put raw "model" k (json.encode_text model),
  )

  -- Where a request is posted to.
  abbrev pub sent_path : String → String → Bool → String
  sent_path kind model stream =
      if kind == "bedrock"
      then if stream
        then str_append "/model/" (str_append (aws_escape model) "/invoke-with-response-stream")
        else str_append "/model/" (str_append (aws_escape model) "/invoke")
      else if kind == "vertex"
      then if stream
        then str_append "/publishers/anthropic/models/" (str_append model ":streamRawPredict")
        else str_append "/publishers/anthropic/models/" (str_append model ":rawPredict")
      else "/v1/messages"

  native_path-sent_path :
      (u : Upstream) (model : String) (stream : Bool)
      → native_path u model stream ≡ sent_path u.cfg.kind model stream
  unfolding native_path
  native_path-sent_path u model stream = ground arith

  -- Where the provider speaks Anthropic's protocol, and the body of the request is an object: every field
  -- is sent as it came, except that the model is the target's; for Bedrock and Vertex it is in the path
  -- instead (escaped, for Bedrock), with the metadata left out, the version of the protocol filled in if it was missing and, for
  -- Bedrock, the wish for a stream left out.
  pub build_payload-sent_field :
      (rand : ℕ → ℕ → String) (tfs : List (TransformFunc F)) (body : String) (m : MessagesRequest)
      (u : Upstream) (tg : Target) (raw : GoMap String String)
      → is_native u.cfg.kind ≡ true
      → json.decode_fields body ≡ some raw
      → (sent : GoMap String String) × (build_payload F json rand tfs body m u tg
          ≡ some (json.encode_fields sent, sent_path u.cfg.kind tg.model m.stream))
        × ((k : String) → get sent k ≡ sent_field u tg.model raw k)
  unfolding build_payload
  build_payload-sent_field rand tfs body m u tg raw native decodes = (
    native_fields F json u (put raw "model" (json.encode_text tg.model)),
    rw native (
        rw (decodes, patch_model_body)
          (ap
            (λ (path : String). some (
              json.encode_fields
                  (native_fields F json u (put raw "model" (json.encode_text tg.model))),
              path,
            ))
            (native_path-sent_path u tg.model m.stream))),
    native_fields-sent_field u tg.model raw,
  )
