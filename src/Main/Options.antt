-- ===== src/Main/Options.antt =====
-- Which arguments `main` has, and when it refuses to start.
use minioclient_cpp.Base.{
  ℕ, ◌≡◌, ◌≢◌, ◌⊎◌, ◌∙◌, inl, inr, refl, ap, true, false, ◌||◌, Option, none, some, List, [], ◌∷◌,
  arith, eqb, if◌then◌else◌, is_empty,
}
use minioclient_cpp.Text.{Str}
use minioclient_cpp.Errors.{Result, ok, throw}
use minioclient_cpp.External.{Env}
use minioclient_cpp.Session.{MinioClient, cerr}
use minioclient_cpp.Client.Construct.{construct_default}
use minioclient_cpp.Client.Execute.{what}
use minioclient_cpp.Main.{
  Arguments, parse_opt, parse_calls, lacks_argument, no_arguments, Process, usage, write_to, report,
  finish, run, main,
}

-- The last argument that the calls give for a key, or `old`.
abbrev pub last_given : ℕ → List (ℕ × Str) → Str → Str
last_given key [] old = old
last_given key ((k, arg) ∷ calls) old = last_given key calls (if eqb k key then arg else old)

parse_opt_lem :
    (key : ℕ) (arg : Str) (args : Arguments)
    → (parse_opt key arg args).1 ≡ record {
      minioendpoint = if eqb key b'm' then arg else args.minioendpoint;
      minioaccesskey = if eqb key b'a' then arg else args.minioaccesskey;
      miniosecret = if eqb key b'k' then arg else args.miniosecret;
    }
unfolding parse_opt
parse_opt_lem key arg args = ground arith

-- Each argument is the last one given for its key; any other key changes nothing.
pub parse_calls_lem :
    (calls : List (ℕ × Str)) (args : Arguments)
    → parse_calls calls args ≡ record {
      minioendpoint = last_given b'm' calls args.minioendpoint;
      minioaccesskey = last_given b'a' calls args.minioaccesskey;
      miniosecret = last_given b'k' calls args.miniosecret;
    }
unfolding parse_calls
parse_calls_lem [] args = refl
parse_calls_lem ((key, arg) ∷ calls) args =
    ap (parse_calls calls) (parse_opt_lem key arg args)
    ∙ parse_calls_lem calls (record {
      minioendpoint = if eqb key b'm' then arg else args.minioendpoint;
      minioaccesskey = if eqb key b'a' then arg else args.minioaccesskey;
      miniosecret = if eqb key b'k' then arg else args.miniosecret;
    })

-- The last endpoint, access key and secret key on the command line.
abbrev pub given : List (ℕ × Str) → Arguments
given calls = record {
  minioendpoint = last_given b'm' calls [];
  minioaccesskey = last_given b'a' calls [];
  miniosecret = last_given b'k' calls [];
}

abbrev pub IsComplete : Arguments → Type 0
IsComplete args = (args.minioendpoint ≢ []) × (args.minioaccesskey ≢ []) × (args.miniosecret ≢ [])

is_empty-any :
    (m a k : Str)
    → (((is_empty m || is_empty a || is_empty k) ≡ false) × (m ≢ []) × (a ≢ []) × (k ≢ []))
      ⊎ (((is_empty m || is_empty a || is_empty k) ≡ true) × ¬ ((m ≢ []) × (a ≢ []) × (k ≢ [])))
is_empty-any [] a k = inr (refl, λ (e, _, _). e refl)
is_empty-any (c ∷ m) [] k = inr (refl, λ (_, e, _). e refl)
is_empty-any (c ∷ m) (d ∷ a) [] = inr (refl, λ (_, _, e). e refl)
is_empty-any (c ∷ m) (d ∷ a) (f ∷ k) = inl (refl, λ e. cc, λ e. cc, λ e. cc)

lacks_argument_lem :
    (args : Arguments)
    → ((lacks_argument args ≡ false) × IsComplete args)
      ⊎ ((lacks_argument args ≡ true) × ¬ IsComplete args)
lacks_argument_lem args =
    elim (is_empty-any args.minioendpoint args.minioaccesskey args.miniosecret) [
      | inl (fine, m, a, k) ↦ inl (fine, (m, a, k))
      | inr lacks ↦ inr lacks
    ]

some_inj : {a b : ℕ} → some a ≡ some b → a ≡ b
some_inj e = cc

module _ {E : Env} where
  report-exit : (text : Option Str) (p : Process E) → (report text p).0 ≢ some 1
  report-exit none p e = cc
  report-exit (some text) p e = omega (arith, some_inj e)

  finish-exit : (r : Result (Unit {0})) (p : Process E) → (finish r p).0 ≢ some 1
  finish-exit (ok u) p e = omega (arith, some_inj e)
  finish-exit (throw x) p e = report-exit (what x) p e

  run-exit : (c : Result (MinioClient E)) (p : Process E) → (run c p).0 ≢ some 1
  run-exit (ok c) p = finish-exit _ _
  run-exit (throw e) p = report-exit (what e) p

  -- Without an endpoint, an access key or a secret key, `main` exits with 1, and has only written
  -- the usage to `std::cerr`. With all three it makes a client of the last ones given and goes on
  -- with it, and its exit code is never 1, whatever fails then.
  pub main-exit :
      (calls : List (ℕ × Str)) (p : Process E)
      → (IsComplete (given calls)
          × (main calls p
              ≡ run
                  (construct_default E
                    (given calls).minioendpoint
                    (given calls).minioaccesskey
                    (given calls).miniosecret)
                  p)
          × ((main calls p).0 ≢ some 1))
        ⊎ ((¬ IsComplete (given calls)) × (main calls p ≡ (some 1, write_to cerr usage p)))
  unfolding main
  main-exit calls p =
      let parsed = parse_calls_lem calls no_arguments in
      rw parsed (elim (lacks_argument_lem (given calls)) [
        | inl (complete, is_complete) ↦ rw complete (inl (is_complete, refl, run-exit _ p))
        | inr (lacks, not_complete) ↦ rw lacks (inr (not_complete, refl))
      ])
