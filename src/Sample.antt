-- ===== src/Sample.antt =====
-- A concrete instance of the code outside the repository: a client of a scripted server. It shows
-- that the laws of `External.Laws` and `Digest.IsCrypto` can be met, and runs in the tests.
pub mod Lawful
pub mod Server
use mathlib.Core.Option
use minioclient_cpp.Base.{
  ℕ, zero, suc, ◌+◌, ◌%◌, Bool, true, false, ◌&&◌, Option, none, some, List, [], ◌∷◌, ◌++◌, map,
  leb, eqb, if◌then◌else◌, length, is_empty,
}
use minioclient_cpp.Text.{lower, Str, str, ◌==◌, between}
use minioclient_cpp.Map.{KeyValueMap, lookup, insert, keys}
use minioclient_cpp.Errors.{Result, ok, throw, http_error}
use minioclient_cpp.Digest.{Crypto}
use minioclient_cpp.External.{Http, TextUtils, FileSystem, Env}
use minioclient_cpp.External.Laws.{join_path}

-- `split`: the texts between the separators, with empty ones left out.
abbrev flush : Str → List Str → List Str
flush [] parts = parts
flush (c ∷ s) parts = (c ∷ s) ∷ parts

-- The text before the first separator, and the parts after it.
unfoldable split_at : ℕ → Str → Str × List Str
split_at sep [] = ([], [])
split_at sep (c ∷ s) =
    let (word, parts) = split_at sep s in
    if eqb c sep then ([], flush word parts) else (c ∷ word, parts)

unfoldable first_or : ℕ → Str → ℕ
first_or d [] = d
first_or d (c ∷ s) = c

unfoldable pub split_text : Str → Str → List Str
unfolding split_at first_or
split_text s sep = let (word, parts) = split_at (first_or 0 sep) s in flush word parts

unfoldable pub join_entries : Str → Str → KeyValueMap → Str
join_entries sep middle [] = []
join_entries sep middle ((k, v) ∷ []) = k ++ (middle ++ v)
join_entries sep middle ((k, v) ∷ (j, w) ∷ m) =
    k ++ (middle ++ (v ++ (sep ++ join_entries sep middle ((j, w) ∷ m))))

abbrev pub sample_text : TextUtils
sample_text = record {
  split = split_text;
  tolower = lower;
  encode = λ s. s;
  join_map = join_entries;
}

unfoldable pub fill : ℕ → ℕ → Str
fill zero c = []
fill (suc n) c = c ∷ fill n c

-- Not a hash: it has the sizes of one.
abbrev pub checksum : Str → ℕ
checksum s = length s % 256

abbrev pub sample_crypto : Crypto
sample_crypto = record {
  hmac = λ k d. (fill 32 (checksum (k ++ d)), 32);
  md5 = λ d. fill 16 (checksum d);
  sha256 = λ d. fill 32 (checksum d);
  base64 = λ d. d;
}

pub record Url : Type 0 where
  pub scheme : Str
  pub host : Str
  pub port : ℕ
  pub path : Str
  pub query : List Str

pub record Message : Type 0 where
  pub method : Str
  pub url : Url
  pub fields : KeyValueMap
  pub body : Str

pub record Reply : Type 0 where
  pub given : Bool
  pub status : ℕ
  pub body : Str

abbrev or_nil : Option Str → Str
or_nil none = []
or_nil (some s) = s

-- The script of the server: its outcomes in order, then connections that fail.
abbrev pub Script : Type 0
Script = List (Result Reply)

abbrev pub play : Script → Result Reply × Script
play [] = (throw (http_error (str "connection refused")), [])
play (outcome ∷ script) = (outcome, script)

abbrev pub server_url : Url
server_url = record {
  scheme = str "http";
  host = str "localhost";
  port = 80;
  path = b'/' ∷ [];
  query = [];
}

-- The HTTP library, over any state behind the client and any exchange with it.
abbrev pub http_over : (C : Type 0) → C → (C → Message → Result Reply × C) → Http
http_over C new_client exchange = record {
  HttpUrl = Url;
  UrlBuilder = Url;
  blank_url = server_url;
  parse_url = λ s. ok (record server_url { host = s });
  encoded_path = λ u. u.path;
  encoded_query = λ u. between (str "&") u.query;
  host = λ u. u.host;
  port = λ u. u.port;
  is_https = λ u. u.scheme == str "https";
  new_builder = λ u. u;
  set_scheme = λ u s. record u { scheme = s; port = if s == str "https" then 443 else 80 };
  set_port = λ u p. record u { port = p };
  add_encoded_path_segment = λ u s. record u { path = join_path u.path s };
  add_path_segment = λ u s. record u { path = join_path u.path s };
  add_encoded_query_parameter = λ u k v. record u { query = u.query ++ (k ++ (str "=" ++ v)) ∷ [] };
  build_url = λ u. u;
  http_scheme = str "http";
  https_scheme = str "https";
  Method = Str;
  head = str "HEAD";
  put = str "PUT";
  post = str "POST";
  method_eq = λ m n. m == n;
  method_name = λ m. m;
  Request = Message;
  RequestBuilder = Message;
  blank_request = record { method = []; url = server_url; fields = []; body = [] };
  from_request = λ r. r;
  set_url = λ r u. record r { url = u };
  set_header = λ r k v. record r { fields = insert (lower k) v r.fields };
  set_method = λ r m. record r { method = m };
  set_body = λ r t b. record r { body = b };
  build_request = λ r. r;
  request_url = λ r. r.url;
  request_method = λ r. r.method;
  header = λ r k. or_nil (lookup (lower k) r.fields);
  request_body = λ r. r.body;
  status_line = λ r. r.method;
  header_string = λ r. join_entries (str "\n") (str ": ") r.fields;
  Headers = KeyValueMap;
  headers = λ r. r.fields;
  names = keys;
  header_of = λ m k. or_nil (lookup (lower k) m);
  Response = Reply;
  blank_response = record { given = false; status = 0; body = [] };
  is_blank = λ r. if r.given then false else true;
  protocol = λ r. str "HTTP/1.1";
  code = λ r. r.status;
  response_headers = λ r. [];
  response_body = λ r. r.body;
  is_successful = λ r. leb 200 r.status && leb r.status 299;
  etag = λ r. [];
  HttpClient = C;
  new_client = new_client;
  exchange = exchange;
}

-- One file, `client.cpp`, that holds `data`.
abbrev sample_files : FileSystem
sample_files = record {
  tellg = λ name. if name == str "client.cpp" then some 4 else none;
  allocates = λ size. leb size 1048576;
  read = λ name n. if eqb n 4 then some (str "data") else none;
}

abbrev pub sample_over : (C : Type 0) → C → (C → Message → Result Reply × C) → Env
sample_over C new_client exchange = record {
  http = http_over C new_client exchange;
  text = sample_text;
  crypto = sample_crypto;
  files = sample_files;
}

abbrev pub play_next : Script → Message → Result Reply × Script
play_next script r = play script

abbrev pub sample : Env
sample = sample_over Script [] play_next
