-- ===== src/Tests/Objects.antt =====
-- Uploads to the scripted server.
use minioclient_cpp.Client.Object.ContentType.{SendsTyped, said_type, uploads-SendsTyped}
use minioclient_cpp.Base.{◌≡◌, leb, length, if◌then◌else◌, [], ◌++◌, refl}
use minioclient_cpp.Text.{str, Str-discrete}
use minioclient_cpp.Client.Execute.{prepare}
use minioclient_cpp.Client.Execute.Sending.{requests_of}
use minioclient_cpp.Client.Object.{
  no_encryption, min_multipart_size, put_data, put_file, forward_object, with_content_type,
  read_all,
}
use minioclient_cpp.Client.Object.Upload.{put_data-sent}
use minioclient_cpp.Client.Object.Contents.{HasSent, put_file-HasSent, forward_object-HasSent}
use minioclient_cpp.Sample.{Message, server_url, sample}
use minioclient_cpp.Sample.Lawful.{
  sample-KeepsHeaders, sample-Lowers, sample-KnowsBlank, sample-KeepsBody,
}
use minioclient_cpp.Tests.Setting.{small_request, us, fresh_world, name, ne-nil}

put_data-sent_example : (put_data {E = sample} name us name [] no_encryption fresh_world).1.sent ≡ (
    if leb (length name) min_multipart_size
    then []
      ++ requests_of
          (prepare {E = sample} sample.put us name us (with_content_type []) [] name fresh_world).0
    else [])
put_data-sent_example = put_data-sent {E = sample} sample-KnowsBlank name us name [] fresh_world

put_file-HasSent_example :
    HasSent {E = sample} sample-KeepsBody
      (str "data")
      fresh_world
      (put_file name us (str "client.cpp") [] fresh_world).1
unfolding read_all Str-discrete str
put_file-HasSent_example =
    put_file-HasSent sample-KnowsBlank sample-KeepsBody name us (str "client.cpp") [] (str "data")
      fresh_world (ne-nil refl) refl

-- A request to /abc/us.
abbrev forwarded : Message
forwarded = record small_request { url = record server_url { path = str "/abc/us" }; body = name }

forward_object-HasSent_example :
    HasSent {E = sample} sample-KeepsBody name fresh_world (forward_object forwarded fresh_world).1
forward_object-HasSent_example =
    forward_object-HasSent sample-KnowsBlank sample-KeepsBody forwarded fresh_world

uploads-SendsTyped_example :
    SendsTyped sample
      (said_type [])
      fresh_world
      (put_file name us (str "client.cpp") [] fresh_world).1
    × SendsTyped sample
        (said_type (sample.header forwarded (str "Content-Type")))
        fresh_world
        (forward_object forwarded fresh_world).1
uploads-SendsTyped_example =
    uploads-SendsTyped sample-KnowsBlank sample-KeepsHeaders sample-Lowers name us
      (str "client.cpp") [] forwarded fresh_world
