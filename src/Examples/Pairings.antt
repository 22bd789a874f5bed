-- ===== src/Examples/Pairings.antt =====
-- A pairing, and six guesses of its code, with heartbeats in between.
use forge_grid.Prelude.{◌≢◌, ◌<◌, refl, String, List, [], ◌∷◌, arith, eq_iff}
use forge_grid.Bootstrap.Bytes.{byte_len, utf8, encode_rune}
use forge_grid.Coordinator.Pairing.{pair, is_refused}
use forge_grid.Coordinator.Server.{route_of}
use forge_grid.Coordinator.Server.Tokens.{IsOld}
use forge_grid.Coordinator.Server.Shut.{Turn, serve_all}
use forge_grid.Coordinator.Server.Guessed.{pair_once, IsTry, guess, another, serve_all_six}
use forge_grid.Examples.Coordinators.{libs, store, enrolment}
use forge_grid.Examples.Dispatches.{context, random}

abbrev turn : String → String → Turn
turn path code = record {
  random = random;
  request = record {
    method = "POST";
    path = path;
    worker_query = "";
    authorization = "Bearer token";
    body = code;
  };
  now = 6;
}

abbrev call : String → Turn
call code = turn "/api/workers/pair" code

abbrev alive : Turn
alive = turn "/api/workers/heartbeat" "{}"

abbrev later : List Turn
later = alive ∷ call "123456" ∷ []

pair_once_example :
    IsOld
      (pair libs "t2" "2" enrolment 6 store).0.workers
      (serve_all libs context later (pair libs "t2" "2" enrolment 6 store).0).workers
unfolding pair is_refused byte_len utf8 encode_rune route_of
pair_once_example =
    pair_once libs context "t2" "2" enrolment 6 store later refl
      (λ e. ground (arith, e), (λ e. ground (arith, e), tt))

abbrev guesses : List Turn
guesses = call "0" ∷ call "1" ∷ alive ∷ call "2" ∷ call "3" ∷ call "4" ∷ call "5" ∷ []

is_try : (code : String) → code ≢ "123456" → IsTry libs context "123456" (call code)
unfolding byte_len utf8 encode_rune route_of
is_try code n = guess refl (record {
  body = record enrolment { code = code };
  read = refl;
  named = λ e. ground (arith, e, eq_iff "rig" "");
  short = omega arith;
  wrong = n;
})

serve_all_six_example :
    IsOld store.workers
      (serve_all libs context later (serve_all libs context guesses store)).workers
    × (5
        < (serve_all libs context later
            (serve_all libs context guesses store)).config.pairing_failures)
unfolding route_of
serve_all_six_example =
    serve_all_six libs context guesses later store
      (
        is_try "0" (λ e. ground (arith, e, eq_iff "0" "123456")),
        (
          is_try "1" (λ e. ground (arith, e, eq_iff "1" "123456")),
          (
            another refl,
            (
              is_try "2" (λ e. ground (arith, e, eq_iff "2" "123456")),
              (
                is_try "3" (λ e. ground (arith, e, eq_iff "3" "123456")),
                (
                  is_try "4" (λ e. ground (arith, e, eq_iff "4" "123456")),
                  (is_try "5" (λ e. ground (arith, e, eq_iff "5" "123456")), tt),
                ),
              ),
            ),
          ),
        ),
      )
      (omega arith) (λ e. ground (arith, e), (λ e. ground (arith, e), tt))
