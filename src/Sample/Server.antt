-- ===== src/Sample/Server.antt =====
-- A concrete storage server: what was put, by path. It shows that the contract of `Store` can be
-- met, and runs in the tests.
use minioclient_cpp.Base.{
  ◌≢◌, inl, inr, Bool-cases, is_empty, ◌≡◌, refl, sym, ap, subst, ◌∙◌, Option, none, some, [],
  if◌then◌else◌, arith, ℕ, true, false, ◌∷◌,
}
use minioclient_cpp.Text.{Str, str, ◌==◌, Str-discrete}
use minioclient_cpp.Map.{KeyValueMap, lookup, insert}
use minioclient_cpp.Map.Laws.{lookup-insert}
use minioclient_cpp.Errors.{Result, ok}
use minioclient_cpp.External.{Env}
use minioclient_cpp.Sample.{Message, Reply, sample_over}
use minioclient_cpp.Sample.Lawful.{
  over-KnowsBlank, over-KeepsBody, over-KeepsTarget, over-BuildsUrls, sample-IsCrypto,
}
use minioclient_cpp.Store.{Contents, ServesStore, IsReliable, stored, Tells}
use minioclient_cpp.Store.Guarded.{Guards}
use minioclient_cpp.Signer.Verify.{accepts-ne-nil}
use minioclient_cpp.Store.Outcome.{Exchanged, Transacts}

abbrev pub with_status : ℕ → Reply
with_status status = record { given = true; status = status; body = [] }

-- The answer to HEAD.
abbrev pub found : Option Str → Reply
found none = with_status 404
found (some content) = with_status 200

-- The files by path; PUT replaces one, and any other method asks.
unfoldable pub serve : KeyValueMap → Message → Result Reply × KeyValueMap
serve disk r =
    if r.method == str "PUT"
    then (ok (with_status 200), insert r.url.path r.body disk)
    else (ok (found (lookup r.url.path disk)), disk)

-- The sample with this server, which holds nothing at first.
abbrev pub server_sample : Env
server_sample = sample_over KeyValueMap [] serve

abbrev pub on_disk : KeyValueMap → Contents
on_disk disk path = lookup path disk

head-is-not-put : (str "HEAD" == str "PUT") ≡ false
unfolding str Str-discrete
head-is-not-put = refl

serve-head :
    (disk : KeyValueMap) (r : Message)
    → r.method ≡ str "HEAD"
    → serve disk r ≡ (ok (found (lookup r.url.path disk)), disk)
unfolding serve
serve-head disk r head = rw (head, head-is-not-put)

serve-put :
    (disk : KeyValueMap) (r : Message)
    → r.method ≡ str "PUT"
    → serve disk r ≡ (ok (with_status 200), insert r.url.path r.body disk)
unfolding serve
serve-put disk r put = ground (arith, put)

found-Tells : (content : Option Str) → Tells server_sample content (found content)
found-Tells none = (refl, refl, refl)
found-Tells (some content) = refl

given-found : (content : Option Str) → server_sample.is_blank (found content) ≡ false
given-found none = refl
given-found (some content) = refl

server_sample-ServesStore : ServesStore server_sample on_disk
unfolding stored
server_sample-ServesStore = record {
  head-answers = λ disk r head _.
      let content = lookup r.url.path disk in
      (
        found content,
        ap (λ x. x.0) (serve-head disk r head),
        given-found content,
        found-Tells content,
      );
  head-keeps = λ disk r q head _. ap (λ x. lookup q x.1) (serve-head disk r head);
  put-answers =
      λ disk r put _ may. (with_status 200, ap (λ x. x.0) (serve-put disk r put), refl, refl);
  put-stores = λ disk r q put _ may.
      ap (λ x. lookup q x.1) (serve-put disk r put) ∙ lookup-insert q r.url.path r.body disk;
}

pub server_sample-IsReliable : IsReliable server_sample on_disk
server_sample-IsReliable = record {
  blank = over-KnowsBlank KeyValueMap [] serve;
  body = over-KeepsBody KeyValueMap [] serve;
  target = over-KeepsTarget KeyValueMap [] serve;
  urls = over-BuildsUrls KeyValueMap [] serve;
  crypto_laws = sample-IsCrypto;
  server = server_sample-ServesStore;
}

pub server_sample-Transacts : Transacts server_sample on_disk
unfolding stored
server_sample-Transacts = record {
  put-Exchanged = λ disk r put _.
      subst
        (λ (x : Result Reply × KeyValueMap).
          Exchanged server_sample r.url.path r.body x.0 (on_disk disk) (on_disk x.1))
        (sym (serve-put disk r put)) λ q. lookup-insert q r.url.path r.body disk;
}

abbrev signature : Message → Str
signature r = server_sample.header r (str "Authorization")

-- The same, but a request without a signature is refused.
unfoldable pub serve_signed : KeyValueMap → Message → Result Reply × KeyValueMap
serve_signed disk r = if is_empty (signature r) then (ok (with_status 403), disk) else serve disk r

abbrev pub signed_sample : Env
signed_sample = sample_over KeyValueMap [] serve_signed

signed_sample-Transacts : Transacts signed_sample on_disk
unfolding stored serve_signed
signed_sample-Transacts = record {
  put-Exchanged = λ disk r put unqueried. elim (Bool-cases (is_empty (signature r))) [
    | inl unsigned ↦ rw unsigned λ q. refl
    | inr signed ↦ rw signed (server_sample-Transacts.put-Exchanged disk r put unqueried)
  ];
}

given-is_empty : (s : Str) → s ≢ [] → is_empty s ≡ false
given-is_empty [] ne = absurd (ne refl)
given-is_empty (c ∷ s) ne = refl

pub signed_sample-Guards :
    (region access_key secret_key : Str) → Guards signed_sample on_disk region access_key secret_key
unfolding serve_signed
signed_sample-Guards region access_key secret_key = record {
  put-admitted = λ disk r put unqueried accepted may.
      let ne = accepts-ne-nil signed_sample region access_key secret_key r accepted in
      rw (given-is_empty (signature r) ne)
        (with_status 200, ap (λ x. x.0) (serve-put disk r put), refl, refl);
  put-unsigned =
      λ disk r put unqueried none_given. rw none_given (with_status 403, refl, refl, refl);
  transacts = signed_sample-Transacts;
}
