-- ===== src/Unary/GetRoundTrip.antt =====
-- A GET request as its handler reads it.
use connect_go.Base.{
  ◌%◌, ◌≡◌, ◌≢◌, inl, inr, refl, sym, subst, ◌∙◌, Bool, true, false, ◌&&◌, ◌||◌, List, [], Option,
  none, Text, codes, eq_text, arith, ◌==◌, Bool-cases, if_true, if◌then◌else◌, length,
}
use connect_go.Compression.{agreed, negotiate, identity, contains, response_compression}
use connect_go.ContentTypes
use connect_go.ContentTypes.Connect.{check_protocol_version_lem}
use connect_go.ContentTypes.{check_protocol_version}
use connect_go.Errors.{GoError}
use connect_go.Headers
use connect_go.Headers.{Headers}
use connect_go.Unary.Get.{StableCodec, RequestWriter, build_get_url}
use connect_go.Unary.Query.{
  UrlLibrary, ConnectHandler, HttpRequest, Incoming, query_get, query_has,
  binary_query_value_reader, query_value_reader, or_failure, checked_request, with_negotiated,
  content_encoding, read_new_conn, read_get, missing_parameter, unknown_codec, accept_encoding,
}
use connect_go.Unary.Params.{IsUrl, get_params, parsed}

module _ {M : Type 0} (w : RequestWriter M) (lib : UrlLibrary) (l : IsUrl w lib) where
  -- What a handler finds in the parameters.
  record IsFound (ps : List (Text × Text)) (binary compressed : Bool) (bytes : Text) : Type 0 where
    version : query_get (codes "connect") ps ≡ codes "v1"
    codec : query_get (codes "encoding") ps ≡ w.codec_name
    complete : missing_parameter ps ≡ none
    compression :
        query_get (codes "compression") ps ≡ (if compressed then w.base.compression_name else [])
    message : query_get (codes "message") ps ≡ (if binary then w.base64_url bytes else bytes)
    base64 : eq_text (query_get (codes "base64") ps) (codes "1") ≡ binary

  get_params-IsFound :
      (binary compressed : Bool) (bytes : Text)
      → (compressed ≡ true → binary ≡ true)
      → IsFound (get_params w binary compressed bytes) binary compressed bytes
  unfolding get_params query_get query_has eq_text codes
  get_params-IsFound true true bytes h = record {
    version = refl;
    codec = refl;
    complete = refl;
    compression = refl;
    message = refl;
    base64 = refl;
  }
  get_params-IsFound true false bytes h = record {
    version = refl;
    codec = refl;
    complete = refl;
    compression = refl;
    message = refl;
    base64 = refl;
  }
  get_params-IsFound false false bytes h = record {
    version = refl;
    codec = refl;
    complete = refl;
    compression = refl;
    message = refl;
    base64 = refl;
  }
  get_params-IsFound false true bytes h = absurd (other (h refl))
    where
      other : false ≢ true
      other = λ q. cc

  read_value :
      (binary : Bool) (bytes : Text)
      → query_value_reader lib (if binary then w.base64_url bytes else bytes) binary
        ≡ record { bytes = bytes; fault = none }
  unfolding query_value_reader binary_query_value_reader
  read_value false bytes = refl
  read_value true bytes = elim (Bool-cases (length (w.base64_url bytes) % 4 == 0)) [
    | inl e ↦ rw e (l.padded bytes (ground arith))
    | inr e ↦ rw e (l.raw bytes)
  ]

  -- A handler that can read the request: it has the codec, and the compression if there is one.
  pub record Knows (h : ConnectHandler) (compressed : Bool) : Type 0 where
    pub unary : h.unary ≡ true
    pub can_flush : h.flush_error ≡ none
    pub has_codec : h.has_codec w.codec_name ≡ true
    pub nonempty : compressed ≡ true → (length w.base.compression_name == 0) ≡ false
    pub not_identity : compressed ≡ true → eq_text w.base.compression_name identity ≡ false
    pub has_pool : compressed ≡ true → contains h.pools w.base.compression_name ≡ true

  negotiated :
      (h : ConnectHandler) (compressed : Bool) (sent accept : Text)
      → Knows h compressed
      → sent ≡ (if compressed then w.base.compression_name else [])
      → (response : Text) × (negotiate h.quote h.pools sent accept
          ≡ agreed (if compressed then w.base.compression_name else identity) response)
  unfolding negotiate
  negotiated h false sent accept k e = (response_compression h.pools identity accept, rw e refl)
  negotiated h true sent accept k e = (
    response_compression h.pools w.base.compression_name accept,
    rw (e, k.nonempty refl, k.not_identity refl, k.has_pool refl) refl,
  )

  -- A GET of a unary method.
  abbrev pub get_request : StableCodec M → Text → Bool → Headers → HttpRequest
  get_request codec bytes compressed header = record {
    method = ContentTypes.get;
    raw_query = build_get_url w codec bytes compressed;
    header = header;
    body = record { bytes = []; fault = none };
  }

  no_failure : (a b : Option GoError) → a ≡ none → b ≡ none → or_failure a b ≡ none
  no_failure a b p q = rw (p, q) refl

  abbrev Reads : Text → Bool → Incoming → Type 0
  Reads bytes compressed r =
      (r.failed ≡ none)
      × (r.body ≡ record { bytes = bytes; fault = none })
      × (r.codec_name ≡ w.codec_name)
      × (r.request_compression ≡ (if compressed then w.base.compression_name else identity))

  read_get-Reads :
      (h : ConnectHandler) (r : HttpRequest) (ps : List (Text × Text)) (binary compressed : Bool)
      (bytes response : Text)
      → r.method ≡ ContentTypes.get
      → Knows h compressed
      → IsFound ps binary compressed bytes
      → Reads bytes compressed (
          read_get h lib ps
            (if compressed then w.base.compression_name else identity)
            response
            (checked_request h r ps))
  read_get-Reads h r ps binary compressed bytes response is_get k f =
      let version =
        (check_protocol_version_lem h.quote (query_get (codes "connect") ps)
            (Headers.get (codes "Connect-Protocol-Version") r.header)
            (h.require_header && h.unary)).0.1
          (inl f.version) in
      let checked : checked_request h r ps ≡ none =
        no_failure h.flush_error _ k.can_flush (rw is_get version) in
      let known : unknown_codec h (query_get (codes "encoding") ps) ≡ none =
        if_true (h.has_codec (query_get (codes "encoding") ps)) none _ (rw f.codec k.has_codec) in
      (
        no_failure _ _ (no_failure _ _ checked f.complete) known,
        rw (f.message, f.base64) (read_value binary bytes),
        f.codec,
        refl,
      )

  -- A handler that knows the codec and the compression reads from the URL of a GET, whether it is
  -- compressed, binary or text, the bytes that the client put there, without an error, and the name of
  -- the codec and of the compression.
  pub read_new_conn-build_get_url :
      (h : ConnectHandler) (codec : StableCodec M) (bytes : Text) (compressed : Bool)
      (header : Headers)
      → Knows h compressed
      → let r = read_new_conn h lib (get_request codec bytes compressed header) in
        (r.failed ≡ none)
        × (r.body ≡ record { bytes = bytes; fault = none })
        × (r.codec_name ≡ w.codec_name)
        × (r.request_compression ≡ (if compressed then w.base.compression_name else identity))
  unfolding read_new_conn build_get_url
  read_new_conn-build_get_url h codec bytes compressed header k =
      let r = get_request codec bytes compressed header in
      let binary = codec.is_binary || compressed in
      let implied : compressed ≡ true → binary ≡ true = λ e. ground arith in
      let ps = get_params w binary compressed bytes in
      let found = get_params-IsFound binary compressed bytes implied in
      let sent =
        if_true h.unary (query_get (codes "compression") ps) _ k.unary ∙ found.compression in
      let (response, agreed_on) = negotiated h compressed _ (accept_encoding h.unary r) k sent in
      subst
        (λ q. Reads bytes compressed (
          with_negotiated h lib r q
            (negotiate h.quote h.pools (content_encoding h.unary r q) (accept_encoding h.unary r))))
        (sym (parsed w lib l binary compressed bytes implied))
        (subst (λ n. Reads bytes compressed (with_negotiated h lib r ps n)) (sym agreed_on)
          (read_get-Reads h r ps binary compressed bytes response refl k found))
