-- ===== src/RemoteConfig/Firebase.antt =====
-- `FirebaseRemoteConfigClient` of publish_firebase_analytics_release_cutoff.py: its three requests to
-- Firebase. HTTP, gzip, UTF-8 and the json library are the fields of `Web`.
use sesori_apps_monorepo.Prelude.{
  ℕ, Bool, ◌&&◌, not, String, ◌<>◌, Option, none, some, List, [], ◌∷◌, ◌++◌, ◌==◌, string_eq,
  option_eq, if◌then◌else◌,
}
use sesori_apps_monorepo.Prelude.Text.{ends_with, str}
use sesori_apps_monorepo.Prelude.Exec.{
  Result, ok, err, publication_error, Exec, pure, raise, lift, ◌>>=◌, ◌>>◌,
}
use sesori_apps_monorepo.Json.{Json, object, Fields, no_fields}
use sesori_apps_monorepo.RemoteConfig.Cutoff.{RemoteConfigTemplate, RemoteConfigClient}

pub record Request (Bytes : Type 0) : Type 0 where
  pub url : String
  pub data_ : Option Bytes
  pub headers : List (String × String)
  pub method : String

-- How `urlopen` ends: with a response, with the response of an `HTTPError`, or with the reason of a
-- `URLError`.
pub data Reply (Headers Bytes : Type 0) : Type 0 where
  opened : Headers → Bytes → Reply Headers Bytes
  refused : ℕ → Headers → Bytes → Reply Headers Bytes
  unreachable : String → Reply Headers Bytes

pub record Web : Type 1 where
  pub World : Type 0
  pub Bytes : Type 0
  pub Headers : Type 0
  -- `headers.get(name)`
  pub header : Headers → String → Option String
  pub urlopen : Request Bytes → World → Reply Headers Bytes × World
  pub is_empty : Bytes → Bool
  pub gunzip : Bytes → Result Bytes
  pub encode : String → Bytes
  pub decode : Bytes → Result String
  -- `decode("utf-8", errors="replace")`
  pub decode_any : Bytes → String
  pub loads : String → Result Json
  -- `json.dumps(value, separators=(",", ":"))`
  pub dumps : Json → String

module _ (H : Web) where
  open H use {
    World, Bytes, Headers, header, urlopen, is_empty, gunzip, encode, decode, decode_any, loads,
    dumps,
  }

  -- the body of a response, unpacked where it is packed
  unfoldable pub unpacked : Headers → Bytes → Result Bytes
  unpacked headers body =
      if header headers "Content-Encoding" == some "gzip" then gunzip body else ok body

  unfoldable pub dictionary : Json → Result Fields
  dictionary (object d) = ok d
  dictionary _ = err (publication_error "Firebase Remote Config returned a non-object response")

  unfoldable pub parsed : Bytes → Exec World Fields
  parsed body =
      if is_empty body
      then pure no_fields
      else (do text ← lift (decode body); value ← lift (loads text); lift (dictionary value))

  unfoldable pub replied : Reply Headers Bytes → Exec World (Fields × Headers)
  replied (opened headers body) = do
    plain ← lift (unpacked headers body)
    fields ← parsed plain
    pure (fields, headers)
  replied (refused code headers body) = do
    plain ← lift (unpacked headers body)
    raise (
        publication_error (
          "Firebase Remote Config request failed with HTTP "
          <> (str code <> (": " <> decode_any plain))))
  replied (unreachable reason) =
      raise (publication_error ("Firebase Remote Config request failed: " <> reason))

  unfoldable pub send : Request Bytes → Exec World (Reply Headers Bytes)
  send request w = let r = urlopen request w in (ok r.0, r.1)

  module _ (project_id access_token : String) where
    abbrev pub template_url : String
    template_url =
        "https://firebaseremoteconfig.googleapis.com/v1/projects/"
        <> (project_id <> "/remoteConfig")

    abbrev pub content_headers : Option Fields → List (String × String)
    content_headers none = []
    content_headers (some body) = ("Content-Type", "application/json; UTF8") ∷ []

    abbrev pub match_headers : Option String → List (String × String)
    match_headers none = []
    match_headers (some etag) = ("If-Match", etag) ∷ []

    abbrev pub encoded : Option Fields → Option Bytes
    encoded none = none
    encoded (some body) = some (encode (dumps (object body)))

    unfoldable pub request_of : String → String → Option Fields → Option String → Request Bytes
    request_of method url body etag = record {
      url = url;
      data_ = encoded body;
      headers =
          (("Accept-Encoding", "gzip") ∷ ("Authorization", "Bearer " <> access_token) ∷ [])
          ++ (content_headers body ++ match_headers etag);
      method = method;
    }

    -- `_request`
    unfoldable pub request :
        String → String → Option Fields → Option String → Exec World (Fields × Headers)
    request method url body etag = do reply ← send (request_of method url body etag); replied reply

    -- an ETag that is missing or empty is refused
    unfoldable pub stated_etag : Option String → Exec World String
    stated_etag none = raise (publication_error "Firebase Remote Config did not return an ETag")
    stated_etag (some etag) =
        if etag == ""
        then raise (publication_error "Firebase Remote Config did not return an ETag")
        else pure etag

    unfoldable pub fetch_template : Exec World RemoteConfigTemplate
    fetch_template = do
      (body, headers) ← request "GET" template_url none none
      etag ← stated_etag (header headers "ETag")
      pure (record { body = body; etag = etag })

    unfoldable pub check_validation : Option String → Exec World (Unit {0})
    check_validation none =
        raise (publication_error "Firebase Remote Config validation did not return an ETag")
    check_validation (some etag) =
        if not (ends_with etag "-0\"") && not (ends_with etag "-0")
        then raise (publication_error ("Firebase returned an unexpected validation ETag: " <> etag))
        else pure tt

    unfoldable pub validate_template : Fields → String → Exec World (Unit {0})
    validate_template template etag = do
      (_, headers) ←
          request "PUT" (template_url <> "?validate_only=true") (some template) (some etag)
      check_validation (header headers "ETag")

    unfoldable pub publish_template : Fields → String → Exec World (Unit {0})
    publish_template template etag = do
      request "PUT" template_url (some template) (some etag)
      pure tt

    abbrev pub firebase_client : RemoteConfigClient World
    firebase_client = record {
      fetch_template = fetch_template;
      validate_template = validate_template;
      publish_template = publish_template;
    }
