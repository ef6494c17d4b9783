-- ===== src/Webhooks/Local.antt =====
-- The receiver on the sources of `pmcluster/internal/webhooks/local.go`, as the daemon wires it: it
-- reads the secrets and writes the marks and the history in one store.
use poor_man_stack.Base.{ℕ, Text, some, Result, map_err}
use poor_man_stack.Deploy.World.{Payload, Deployed}
use poor_man_stack.Store.Webhooks.{WebhookTables}
use poor_man_stack.Webhooks.Wire.{Bytes}
use poor_man_stack.Webhooks.Receiver.{Services}
use poor_man_stack.Webhooks.Sources.{
  Cipher, SourceError, source_secret, mark_used, record_source_delivery,
}

-- What the handler calls besides the store of sources.
pub record Endpoint : Type 1 where
  pub World : Type 0
  pub deploy : Payload → World → World × Result Text Deployed
  pub hmac : Bytes → Bytes → Bytes
  pub decode : Bytes → Result Text Payload
  pub show_error : SourceError → Text

abbrev pub local_services : Endpoint → Cipher → ℕ → Services
local_services endpoint cipher now = record {
  State = WebhookTables × endpoint.World;
  secret = λ source s. map_err endpoint.show_error (source_secret cipher source s.0);
  mark_used = λ source s. (mark_used now source s.0, s.1);
  deploy = λ p s. ((s.0, (endpoint.deploy p s.1).0), (endpoint.deploy p s.1).1);
  record_delivery = some (λ d s. (record_source_delivery now d s.0, s.1));
  hmac = endpoint.hmac;
  decode = endpoint.decode;
}
