-- ===== src/Deployer/Protocol/Frames.antt =====
-- StragetyDeployer/CommonStruct.h: an int and a response read what was written, and a message that
-- is sent frame by frame arrives whole.
use cpp_linux_learn.Common.{
  ℕ, ◌^◌, ◌<◌, ◌≡◌, refl, ap, Bool, true, false, some, List, [], ◌∷◌, ◌++◌, length, take-append,
  drop-append, length-append, append_assoc, drop, sym, ◌∙◌, arith,
}
use cpp_linux_learn.Solcom.Codec.Digits.{le_bytes, length-le_bytes, le_value-le_bytes}
use cpp_linux_learn.Deployer.Protocol.{
  Element, manage_user, server_config, strategy_config, deploy_config, deploy_group, element_code,
  element_of, Response, Sent, message_of, int_frame, int_of_frame, int_at_front, response_frame,
  response_of_frame,
}

pub int_of_frame-int_frame : (n : ℕ) → n < 2 ^ 32 → int_of_frame (int_frame n) ≡ some n
unfolding int_of_frame
int_of_frame-int_frame n h = rw (length-le_bytes 4 n) (ap some (le_value-le_bytes 4 n h))

pub int_at_front-int_frame : (n : ℕ) → n < 2 ^ 32 → int_at_front (int_frame n) ≡ some n
unfolding int_at_front le_bytes
int_at_front-int_frame n h = ap some (le_value-le_bytes 4 n h)

pub element_of-element_code : (e : Element) → element_of (element_code e) ≡ some e
element_of-element_code manage_user = refl
element_of-element_code server_config = refl
element_of-element_code strategy_config = refl
element_of-element_code deploy_config = refl
element_of-element_code deploy_group = refl

pub element_code_lt : (e : Element) → element_code e < 2 ^ 32
element_code_lt manage_user = omega arith
element_code_lt server_config = omega arith
element_code_lt strategy_config = omega arith
element_code_lt deploy_config = omega arith
element_code_lt deploy_group = omega arith

-- The numbers of a response fit their fields, and its text the array.
pub record IsResponse (r : Response) : Type 0 where
  pub error_id : r.error_id < 2 ^ 32
  pub err_msg : length r.err_msg ≡ 64
  pub request_id : r.request_id < 2 ^ 32
  pub cmd_type : r.cmd_type < 2 ^ 32

read_response :
    (e q c : ℕ) (text : List ℕ)
    → length text ≡ 64
    → e < 2 ^ 32
    → q < 2 ^ 32
    → c < 2 ^ 32
    → response_of_frame (le_bytes 4 e ++ (text ++ (le_bytes 4 q ++ le_bytes 4 c)))
      ≡ some (record { error_id = e; err_msg = text; request_id = q; cmd_type = c })
unfolding response_of_frame le_bytes
read_response e q c text k he hq hc =
    let rest = le_bytes 4 q ++ le_bytes 4 c in
    let size : length (text ++ rest) ≡ 72 = omega (arith, length-append text rest, k) in
    let at68 : drop 68 (text ++ rest) ≡ le_bytes 4 c =
      ap (drop 68) (sym (append_assoc text (le_bytes 4 q) (le_bytes 4 c)))
      ∙ drop-append (text ++ le_bytes 4 q) (le_bytes 4 c) 68
          (omega (arith, length-append text (le_bytes 4 q), k)) in
    rw (
      size,
      take-append text rest 64 k,
      drop-append text rest 64 k,
      at68,
      le_value-le_bytes 4 e he,
      le_value-le_bytes 4 q hq,
      le_value-le_bytes 4 c hc,
    )

pub response_of_frame-response_frame :
    (r : Response) → IsResponse r → response_of_frame (response_frame r) ≡ some r
response_of_frame-response_frame r h =
    read_response r.error_id r.request_id r.cmd_type r.err_msg h.err_msg h.error_id h.request_id
      h.cmd_type

-- Four frames before the rest of a message, and four that are a message.
abbrev pub four : List ℕ → List ℕ → List ℕ → List ℕ → Bool → List Sent → List Sent
four a b c d more ss =
    record { frame = a; more = true }
    ∷ record { frame = b; more = true }
    ∷ record { frame = c; more = true }
    ∷ record { frame = d; more = more }
    ∷ ss

pub message_of-four :
    (a b c d : List ℕ) (more : Bool) (t : Sent) (ss : List Sent) (fs : List (List ℕ))
    → more ≡ true
    → message_of (t ∷ ss) ≡ some fs
    → message_of (four a b c d more (t ∷ ss)) ≡ some (a ∷ b ∷ c ∷ d ∷ fs)
unfolding message_of
message_of-four a b c d more t ss fs k h = rw (k, h)

pub message_of-four_last :
    (a b c d : List ℕ) → message_of (four a b c d false []) ≡ some (a ∷ b ∷ c ∷ d ∷ [])
unfolding message_of
message_of-four_last a b c d = refl
