-- ===== src/Tests/WebhookRuns.antt =====
-- Deliveries under a MAC of 32 zeros and a JSON decoder that takes anything.
use poor_man_stack.Base.{
  ℕ, zero, suc, Text, codes, ◌==◌, text_eq, nat_eq, true, ◌≡◌, refl, ◌⊎◌, ◌↔◌, none, List, [], ◌∷◌,
  ok, err, arith, cut_prefix, if◌then◌else◌,
}
use poor_man_stack.Deploy.World.{Payload}
use poor_man_stack.Webhooks.Wire.{
  Bytes, message, parse_timestamp, decimal, digits_from, unsigned, parse_int, positive, hex_decode,
  nibble, hex_byte,
}
use poor_man_stack.Webhooks.Wire.Signed.{message-injective}
use poor_man_stack.Webhooks.Receiver.{
  Post, Services, accepted, verify_hmac, receive, receive_body, receive_verified, deployed,
  recorded, wanted_digest, compare_digest, skew,
}
use poor_man_stack.Webhooks.Receiver.Authenticity.{IsSigned, verify_hmac-iff_IsSigned}
use poor_man_stack.Webhooks.Receiver.Dispatch.{IsForwarded, IsRefused, receive_lem}

abbrev pub zeros : ℕ → Bytes
zeros zero = []
zeros (suc n) = 0 ∷ zeros n

abbrev pub payload : Payload
payload = record {
  app_name = codes "web";
  repo_url = codes "git@host:web";
  file = codes "stack.yml";
  version = [];
  manifest = codes "name: web";
}

-- The state is the log of what was done.
abbrev logging : Services
logging = record {
  State = List Text;
  secret = λ source log. if source == codes "ci" then ok (codes "key") else err (codes "unknown");
  mark_used = λ source log. codes "used" ∷ log;
  deploy = λ p log. (
    codes "deployed" ∷ log,
    ok (record { stack_name = p.app_name; revision = 7; rendered_yaml = []; changed = true }),
  );
  record_delivery = none;
  hmac = λ key text. zeros 32;
  decode = λ body. ok payload;
}

abbrev pub post : Post
post = record {
  source = codes "ci";
  body = ok (codes "{}");
  timestamp_header = codes "1000";
  signature_header =
      codes "sha256=0000000000000000000000000000000000000000000000000000000000000000";
}

unfoldable pub webhook : Unit {0}
unfolding receive receive_body receive_verified deployed recorded verify_hmac wanted_digest
    compare_digest skew message parse_timestamp decimal digits_from unsigned parse_int positive
    hex_decode nibble hex_byte cut_prefix
webhook = tt

receive_run :
    receive logging 1200 post [] ≡ (codes "deployed" ∷ codes "used" ∷ [], accepted (codes "web") 7)
unfolding webhook
receive_run = refl

-- The digest is read in upper case too, and a stamp with zeros in front stands for the number.
hex_case_run : hex_decode (codes "AB0f") ≡ hex_decode (codes "ab0F")
unfolding webhook
hex_case_run = refl

leading_zeros_run : parse_timestamp (codes "0001000") ≡ parse_timestamp (codes "1000")
unfolding webhook
leading_zeros_run = refl

receive_lem_example :
    IsForwarded logging 1200 post [] (receive logging 1200 post [])
    ⊎ IsRefused logging 1200 post [] (receive logging 1200 post [])
receive_lem_example = receive_lem logging 1200 post []

verify_hmac-iff_IsSigned_example :
    (verify_hmac logging 1200 post.source
        (parse_timestamp post.timestamp_header)
        (codes "{}")
        post.signature_header
        []
      ≡ none)
    ↔ IsSigned logging 1200 post (codes "{}") []
verify_hmac-iff_IsSigned_example = verify_hmac-iff_IsSigned logging 1200 post (codes "{}") []

abbrev stamp : ℕ
stamp = 1000

message-injective_example : (stamp ≡ stamp) × (codes "{}" ≡ codes "{}")
message-injective_example =
    message-injective stamp stamp (codes "{}") (codes "{}") (omega arith) (omega arith) refl refl
      refl
