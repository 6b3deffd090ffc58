-- ===== src/Tests/Setting.antt =====
-- A client with keys at a scripted server, its clock at 26 November 2018, 15:37:21.
use minioclient_cpp.DateTime.{DateTime}
use minioclient_cpp.Base.{
  ℕ, ◌≡◌, ◌≢◌, true, false, some, List, [], ◌∷◌, is_empty, inl, arith, zero, suc,
}
use minioclient_cpp.Text.{Str, str, ◌==◌}
use minioclient_cpp.Errors.{ok}
use minioclient_cpp.Session.{LogPrinter, MinioClient, World, cout}
use minioclient_cpp.Client.Request.Names.{IsTarget}
use minioclient_cpp.Sample.{Script, Reply, Message, server_url, sample}

abbrev pub printer : LogPrinter
printer = record { stream = cout }

-- 26 November 2018, 15:37:21, and the second after it.
abbrev pub moment : DateTime
moment = record { time = 1543246641; fits = omega arith }

abbrev pub next_moment : DateTime
next_moment = record { time = 1543246642; fits = omega arith }

abbrev pub first_moment : DateTime
first_moment = record { time = 0; fits = omega arith }

-- A clock that goes on after its first reading.
abbrev pub clock_at : ℕ → DateTime
clock_at zero = moment
clock_at (suc n) = next_moment

-- The client in a region, with and without a region.
abbrev pub client_in : Str → Script → MinioClient sample
client_in region script = record {
  region = region;
  access_key = b'k' ∷ [];
  secret_key = b's' ∷ [];
  user_agent = b'u' ∷ [];
  trace_stream = some printer;
  http_client = script;
  base_url = server_url;
}

abbrev pub world_in : Str → Script → World sample
world_in region script = record {
  client = client_in region script;
  clock = clock_at;
  reads = 0;
  output = [];
  sent = [];
}

-- A response with a status and a body.
abbrev pub reply : ℕ → Str → Reply
reply status body = record { given = true; status = status; body = body }

abbrev pub missing : Script
missing = ok (reply 404 []) ∷ []

abbrev pub us : Str
us = b'u' ∷ b's' ∷ []

abbrev pub fresh_world : World sample
fresh_world = world_in us missing

-- A client that has no region yet.
abbrev pub new_world : World sample
new_world = world_in [] missing

-- A request with one header to sign.
abbrev pub small_request : Message
small_request = record {
  method = str "PUT";
  url = record server_url { query = (b'a' ∷ b'=' ∷ b'1' ∷ []) ∷ [] };
  fields = ((b'h' ∷ []), (b'v' ∷ [])) ∷ [];
  body = [];
}

-- A list that the test for emptiness refuses is not empty.
pub ne-nil {ℓ} : {A : Type ℓ} {xs : List A} → is_empty xs ≡ false → xs ≢ []
ne-nil h e = cc

-- Texts that the test for equality tells apart differ.
pub apart : {s t : Str} → (s == t) ≡ false → s ≢ t
apart h e = ground arith

abbrev pub name : Str
name = b'a' ∷ b'b' ∷ b'c' ∷ []

pub name-IsTarget : IsTarget name []
name-IsTarget = inl (omega arith, omega arith)
