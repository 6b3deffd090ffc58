-- ===== src/Lib.antt =====
-- minioclient-cpp: a client for the S3 interface of a Minio server.
--
-- The program makes requests, signs them and sends them. `MinioClient` (minioclient.cpp,
-- minioclient.h) offers `bucketExists`, `makeBucket`, `putObject` and `forwardObject`; each ends
-- in `execute`, which makes the request (`createRequest`), has it signed (`Signer::signV4`,
-- aws_signer.cpp) with the hashes of digest.hpp and the dates of datetime.cpp, gives it to the
-- HTTP client, and turns the response into a result or an exception (minioexceptions.h).
--
-- The files:
--   * Base, Text, Map: shared names, and the parts of the language and its library that the
--     program uses: `std::string` as a list of bytes with `find`, `substr` and `std::to_string`,
--     and `std::map` as the entries in ascending order of keys.
--   * Errors: minioexceptions.h. An exception is a value of `Exn`, a call returns `ok` or
--     `throw`.
--   * Digest: digest.h, digest.hpp, over `Crypto`, which stands for OpenSSL. A failed `assert`
--     is the exception `abort`.
--   * DateTime: datetime.h, datetime.cpp, with `gmtime` and `strftime` of the C library written
--     out.
--   * External: the code outside the repository as parameters: the HTTP classes, string
--     functions and `Escaper` of the simple-http submodule, and the file system. External/Laws
--     holds what is relied on: `StartsBare`, `KeepsHeaders`, `KeepsNames`, `KeepsBody`,
--     `KeepsTarget`, `BuildsUrls`, `KeepsServers`, `KnowsBlank`, `Joins` and `Lowers`, beside `Digest.IsCrypto`.
--   * Session: the state `World`: the client, the clock with the number of its readings, the
--     text written to each stream (logprinter.h), and the requests sent. A method is an action
--     `M E A`, which keeps what it did before it threw. The modules below it are rules for
--     actions: what they leave alone (Frame), send (Sends), return (Returns), throw (Fails),
--     ensure when they return (Ensures), and achieve (Achieves).
--   * Signer: aws_signer.h, aws_signer.cpp, a record of the fields of class `Signer` and a
--     function for each `set...` method. Signer/Verify is the other side, a server's check of a
--     request, with the algorithm and the unsigned headers of the documentation (Signer/Spec)
--     and not those of the program; Signer/Canonical, Signer/Signature and
--     Signer/Binding are about what a signature is made for.
--   * Client: minioclient.h, minioclient.cpp: Client/Construct (the constructors, `traceOn`),
--     Client/Request (`createRequest`), Client/Execute (`execute`, `handleError`, `extract`),
--     Client/Bucket (`bucketExists`, `makeBucket`, `getRegion`, `executeHead`, `executePut`),
--     Client/Object (`putObject`, `forwardObject`; files.h, serversideencryption.h).
--     Client/History is about sequences of calls: a step is a call of a public method.
--   * Main: client.cpp, `parse_opt` and `main`, over the calls of `parse_opt` that `argp_parse`
--     makes.
--   * Enclave: files.h and logprinter.h as they are compiled under `ENCLAVED`.
--   * Store: the contract of a storage server behind the HTTP client, as a function from paths to
--     contents, and the methods and `main` as operations on it: Store/Methods (one method),
--     Store/Calls (any sequence of them), Store/Upload, Store/Repeat and Store/Program (client.cpp).
--     The server is a parameter; what is taken of it is the record `ServesStore`: HEAD without a
--     query answers whether something is at a path (404 without a body if not) and changes nothing,
--     PUT without a query puts the body at a path where it may, which is a bucket that is not there
--     or an object in a bucket that is. Store/Outcome is about a server that may fail, and takes
--     only that it does each PUT as a whole or not at all (`Transacts`); Store/Guarded and
--     Store/Denied about one that checks signatures (`Guards`).
--   * Sample: a concrete instance of the parameters, with a scripted server, and one with a
--     storage server and one that wants signatures (Sample/Server); Tests: examples with them.
--
-- Bounds and fuel: sizes and times are natural numbers, and a time is from 1970 on and before
-- the year 2147483648 (`DateTime.fits`): earlier times are negative, and from that year on the
-- year is no `int`, `%Y` cannot print it, and soon `gmtime` returns NULL. `std::to_string` runs
-- on fuel one above the number, and `gmtime` works by division and needs none. The one index
-- of an empty vector (`tokens[0]` in `setCanonicalQueryString`) is the exception `undefined`.
--
-- Not modelled: code under `#if 0` (multipart uploads, chunked and presigned signatures, all of
-- serversideencryption.cpp); the choice of headers under `ENCLAVED`; the release of memory; the
-- empty class `DataObject`; what `argp_parse` prints and how it reads the command line.
pub mod Base
pub mod Text
pub mod Map
pub mod Errors
pub mod Digest
pub mod DateTime
pub mod External
pub mod Session
pub mod Signer
pub mod Client
pub mod Main
pub mod Enclave
pub mod Store
pub mod Sample
mod Tests
