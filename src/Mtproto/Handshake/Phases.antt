-- ===== src/Mtproto/Handshake/Phases.antt =====
-- What the server's half promises: phases that are passed one after the other, and a key at the end
-- only.
use messaging_app.Prelude.{
  List, Option, Result, arith, err, none, ok, refl, some, suc, zero, ℕ, ◌+◌, ◌^◌, ◌≡◌, ◌≤◌,
}
use messaging_app.Mtproto.{Crypto, Error}
use messaging_app.Mtproto.Handshake.{
  DhGenOk, Json, PqInnerData, ReqDhParams, ResPq, ServerDhParams, SetClientDhParams,
}
use messaging_app.Mtproto.Handshake.Group.{big_bytes, dh_g, exp_mod, left_pad}
use messaging_app.Mtproto.Handshake.Server.{
  ServerHandshake, ServerKey, answer_dh, challenge, check_client_dh, check_req_dh_params,
  check_step, confirm, req_dh_params, req_pq, seal_answer, set_client_dh_params,
}
use messaging_app.Mtproto.Keys.{AuthKey, auth_key_size, new_auth_key}
use messaging_app.Mtproto.Pq.{generate_pq}

-- The abstract machine.
pub data Phase : Type 0 where
  fresh challenged answered agreed : Phase

pub data Advance : Phase → Phase → Type 0 where
  challenges : Advance fresh challenged
  answers : Advance challenged answered
  agrees : Advance answered agreed

-- A call of one of the three methods with what the clock and the random reader give, and what it
-- returns.
pub data Request : Type 0 where
  ask : ℕ → Option (List ℕ) → List ℕ → List ℕ → Request
  offer_factors : ℕ → Option ℕ → (ℕ → Option (List ℕ)) → ReqDhParams → Request
  offer_value : ℕ → SetClientDhParams → Request

pub data Reply : Type 0 where
  challenge_with : ResPq → Reply
  answer_with : ServerDhParams → Reply
  confirm_with : AuthKey → DhGenOk → Reply

-- The phase that `step` stands for.
abbrev pub phase_of : ℕ → Phase
phase_of zero = fresh
phase_of (suc zero) = challenged
phase_of (suc (suc zero)) = answered
phase_of (suc (suc (suc n))) = agreed

-- The result of a call with the reply of its kind.
abbrev pub reply_with {ℓ} :
    {A : Type 0} {S : Type ℓ} → (A → Reply) → S × Result Error A → S × Result Error Reply
reply_with f (h, err e) = (h, err e)
reply_with f (h, ok a) = (h, ok (f a))

module _ (crypto : Crypto) (json : Json) (key : ServerKey) where
  -- One call.
  unfoldable pub serve : Request → ServerHandshake → ServerHandshake × Result Error Reply
  serve (ask now drawn primes nonce) h =
      reply_with challenge_with (req_pq key now drawn primes nonce h)
  serve (offer_factors now drawn random req) h =
      reply_with answer_with (req_dh_params crypto json key now drawn random req h)
  serve (offer_value now req) h =
      reply_with (λ (k, g). confirm_with k g) (set_client_dh_params crypto json now req h)

-- The phases that a reply may lead from and to.
abbrev pub Matches : Reply → Phase → Phase → Type 0
Matches (challenge_with r) a b = (a ≡ fresh) × (b ≡ challenged)
Matches (answer_with r) a b = (a ≡ challenged) × (b ≡ answered)
Matches (confirm_with k g) a b = (a ≡ answered) × (b ≡ agreed)

-- A call refused leaves the phase, and a call answered is the step of the machine for its reply.
abbrev pub Refines : ServerHandshake → ServerHandshake × Result Error Reply → Type 0
Refines h (h', err e) = h'.step ≡ h.step
Refines h (h', ok r) =
    Matches r (phase_of h.step) (phase_of h'.step) × Advance (phase_of h.step) (phase_of h'.step)

pub check_step_inverse :
    (now step : ℕ) (h : ServerHandshake)
    → check_step now step h ≡ ok tt
    → (h.step ≡ step) × (now ≤ h.deadline)
unfolding check_step
check_step_inverse now step h e = (ground arith, ground arith)

-- A call that goes on by the cases of a result refines the machine if each case does.
Refines-cases :
    {A B : Type 0} (h : ServerHandshake) (f : B → Reply)
    (bad : Error → ServerHandshake × Result Error B) (good : A → ServerHandshake × Result Error B)
    (x : Result Error A)
    → ((e : Error) → Refines h (reply_with f (bad e)))
    → ((a : A) → x ≡ ok a → Refines h (reply_with f (good a)))
    → Refines h (reply_with f (elim x [ err e ↦ bad e | ok a ↦ good a ]))
Refines-cases h f bad good (err e) hb hg = hb e
Refines-cases h f bad good (ok a) hb hg = hg a refl

module _ (key : ServerKey) where
  challenge-Refines :
      (drawn : Option (List ℕ)) (primes : List ℕ) (h : ServerHandshake)
      → h.step ≡ 0
      → Refines h (reply_with challenge_with (challenge key drawn primes h))
  unfolding challenge
  challenge-Refines none primes h at_none = refl
  challenge-Refines (some server_nonce) primes h at_none =
      Refines-cases h challenge_with _ _ (generate_pq 64 primes) (λ e. refl)
        (λ found made. rw at_none ((refl, refl), challenges))

  req_pq-Refines :
      (now : ℕ) (drawn : Option (List ℕ)) (primes nonce : List ℕ) (h : ServerHandshake)
      → Refines h (reply_with challenge_with (req_pq key now drawn primes nonce h))
  unfolding req_pq
  req_pq-Refines now drawn primes nonce h =
      Refines-cases h challenge_with _ _ (check_step now 0 h) (λ e. refl)
        (λ u passed.
          challenge-Refines drawn primes (record h { nonce = nonce })
            (check_step_inverse now 0 h passed).0)

module _ (crypto : Crypto) (json : Json) where
  answer_dh-Refines :
      (now : ℕ) (drawn : Option ℕ) (random : ℕ → Option (List ℕ)) (h : ServerHandshake)
      → h.step ≡ 1
      → Refines h (reply_with answer_with (answer_dh crypto json now drawn random h))
  unfolding answer_dh
  answer_dh-Refines now none random h at_one = refl
  answer_dh-Refines now (some r) random h at_one =
      let a = r + 2 ^ 20 in
      Refines-cases h answer_with _ _
        (seal_answer crypto json now random (record h { a = a; g_a = exp_mod dh_g a })) (λ e. refl)
        (λ sealed made. rw at_one ((refl, refl), answers))

  confirm-Refines :
      (h : ServerHandshake)
      → h.step ≡ 2
      → Refines h (reply_with (λ (k, g). confirm_with k g) (confirm crypto json h))
  unfolding confirm
  confirm-Refines h at_two =
      Refines-cases h (λ (k, g). confirm_with k g) _ _
        (new_auth_key crypto (left_pad (big_bytes (exp_mod h.g_b h.a)) auth_key_size)) (λ e. refl)
        (λ k made. rw at_two ((refl, refl), agrees))

-- The requests that pass the checks of the second and third step come in those steps.
pub check_req_dh_params_step :
    (key : ServerKey) (now : ℕ) (req : ReqDhParams) (h : ServerHandshake) (inner : PqInnerData)
    → check_req_dh_params key now req h ≡ ok inner
    → check_step now 1 h ≡ ok tt
unfolding check_req_dh_params
check_req_dh_params_step key now req h inner e = ground arith

pub check_client_dh_step :
    (crypto : Crypto) (json : Json) (now : ℕ) (req : SetClientDhParams) (h : ServerHandshake)
    (v : ℕ)
    → check_client_dh crypto json now req h ≡ ok v
    → check_step now 2 h ≡ ok tt
unfolding check_client_dh
check_client_dh_step crypto json now req h v e = ground arith

-- Whatever request comes, at whatever time and with whatever random numbers, the server's half refines
-- the machine of four phases: a call refused leaves the phase, and a call that is answered goes one
-- phase on, from the phase that the kind of its reply belongs to.
pub serve-Refines :
    (crypto : Crypto) (json : Json) (key : ServerKey) (r : Request) (h : ServerHandshake)
    → Refines h (serve crypto json key r h)
unfolding serve req_dh_params set_client_dh_params
serve-Refines crypto json key (ask now drawn primes nonce) h =
    req_pq-Refines key now drawn primes nonce h
serve-Refines crypto json key (offer_factors now drawn random req) h =
    Refines-cases h answer_with _ _ (check_req_dh_params key now req h) (λ e. refl)
      (λ inner passed.
        answer_dh-Refines crypto json now drawn random (record h { new_nonce = inner.new_nonce })
          (check_step_inverse now 1 h (check_req_dh_params_step key now req h inner passed)).0)
serve-Refines crypto json key (offer_value now req) h =
    Refines-cases h (λ (k, g). confirm_with k g) _ _ (check_client_dh crypto json now req h)
      (λ e. refl)
      (λ v passed.
        confirm-Refines crypto json (record h { g_b = v })
          (check_step_inverse now 2 h (check_client_dh_step crypto json now req h v passed)).0)
