-- ===== src/Kafka/Producer.antt =====
-- archive/kafka/src/producer.rs: `KafkaProducer`. The broker is the log of what it has accepted,
-- and a schedule of the deliveries that fail.
use Prim.Native.String.{String}
use sub_archive.Prelude.{
  ℕ, List, [], ◌∷◌, ◌++◌, Option, none, some, Bool, ◌||◌, ◌&&◌, not, Result, ok, err, Outcome,
  returned, panicked, ◌==◌, string_eq, if◌then◌else◌,
}
use sub_archive.Prelude.Assoc.{contains_key}
use sub_archive.Chain.{Bytes}
use sub_archive.Kafka.Payload.{
  KafkaConfig, Payload, metadata, block, finalized, metadata_demo, block_demo, finalized_demo,
}
use sub_archive.Kafka.Key.{to_string}

-- rdkafka's error codes
abbrev pub KafkaError : Type 0
KafkaError = ℕ

pub record KafkaRecord : Type 0 where
  pub topic : String
  pub key : Option Bytes
  pub payload : Bytes

pub record KafkaProducer : Type 0 where
  pub config : KafkaConfig
  -- `serde_json::to_string` of a payload
  pub to_json : Payload → Bytes
  -- what the broker has accepted, the oldest first
  pub delivered : List KafkaRecord
  -- what the next deliveries end with; past its end none fails
  pub outages : List (Option KafkaError)

unfoldable pub check_kafka_config : KafkaConfig → Bool
check_kafka_config config =
    (contains_key "metadata.broker.list" config.rdkafka
      || contains_key "bootstrap.servers" config.rdkafka)
    && not (config.topic.metadata == "")
    && not (config.topic.block == "")

-- `client.create()` is rdkafka's: its error, or the broker that it connects to.
abbrev create_producer :
    KafkaConfig
    → (Payload → Bytes)
    → Result KafkaError (List (Option KafkaError))
    → Result KafkaError KafkaProducer
create_producer config to_json (ok outages) =
    ok (record { config = config; to_json = to_json; delivered = []; outages = outages })
create_producer config to_json (err e) = err e

unfoldable pub new :
    KafkaConfig
    → (Payload → Bytes)
    → Result KafkaError (List (Option KafkaError))
    → Outcome (Result KafkaError KafkaProducer)
unfolding check_kafka_config
new config to_json created =
    if check_kafka_config config
    then returned (create_producer config to_json created)
    else panicked

abbrev deliver :
    List (Option KafkaError)
    → KafkaRecord
    → KafkaProducer
    → Result KafkaError (Unit {0}) × KafkaProducer
deliver [] r p = (ok tt, record p { delivered = p.delivered ++ r ∷ [] })
deliver (none ∷ rest) r p = (ok tt, record p { delivered = p.delivered ++ r ∷ []; outages = rest })
deliver (some e ∷ rest) r p = (err e, record p { outages = rest })

send_inner :
    String → Bytes → Option Bytes → KafkaProducer → Result KafkaError (Unit {0}) × KafkaProducer
send_inner topic payload key p =
    deliver p.outages (record { topic = topic; key = key; payload = payload }) p

-- Each `SendPayload` implementation chooses its topic and its key.
abbrev pub topic_of : KafkaConfig → Payload → String
topic_of config (metadata m) = config.topic.metadata
topic_of config (block b) = config.topic.block
topic_of config (finalized f) = config.topic.finalized_block
topic_of config (metadata_demo m) = config.topic.metadata
topic_of config (block_demo b) = config.topic.block
topic_of config (finalized_demo f) = config.topic.finalized_block

abbrev pub key_of : Payload → Option Bytes
key_of (metadata m) = some (to_string m.spec_version)
key_of (block b) = some (to_string b.block_num)
key_of (finalized f) = none
key_of (metadata_demo m) = some (to_string m.spec_version)
key_of (block_demo b) = some (to_string b.block_num)
key_of (finalized_demo f) = none

abbrev pub record_of : KafkaProducer → Payload → KafkaRecord
record_of p x = record { topic = topic_of p.config x; key = key_of x; payload = p.to_json x }

unfoldable pub send : Payload → KafkaProducer → Result KafkaError (Unit {0}) × KafkaProducer
unfolding send_inner
send x p = send_inner (topic_of p.config x) (p.to_json x) (key_of x) p
