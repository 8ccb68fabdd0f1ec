-- ===== src/Kafka/Delivery.antt =====
-- What a `send` does to the broker, and which configurations the producer accepts.

use sub_archive.Prelude.{
  Option, List, [], ◌∷◌, ◌++◌, true, Result, ok, err, panicked, ◌≡◌, ◌⊎◌, ◌≢◌, ◌↔◌, arith,
  string_eq,
}
use mathlib.Core.List.{append-nil}
use text.Mathlib.TextEquality.{eq_iff}
use sub_archive.Prelude.Assoc.{contains_key}
use sub_archive.Chain.{Bytes}
use sub_archive.Kafka.Payload.{KafkaConfig, Payload, block, metadata}
use sub_archive.Kafka.Producer.{KafkaError, KafkaProducer, KafkaRecord, new, send, record_of}

-- the records that a delivery with this result adds
abbrev pub accepted : Result KafkaError (Unit {0}) → KafkaRecord → List KafkaRecord
accepted (ok _) r = r ∷ []
accepted (err e) r = []

-- A send that succeeds appends exactly the record of its payload, and one that fails appends
-- nothing. Neither changes the configuration.
pub send_lem :
    (x : Payload) (p : KafkaProducer)
    → ((send x p).1.delivered ≡ p.delivered ++ accepted (send x p).0 (record_of p x))
      × ((send x p).1.config ≡ p.config)
      × ((send x p).1.to_json ≡ p.to_json)
unfolding send
send_lem x p = ground (arith, append-nil p.delivered)

-- A producer is created exactly for a configuration that names a broker, by either of its two
-- keys, and the topics of metadata and of blocks; any other panics.
pub new-ne-panicked_iff :
    (config : KafkaConfig) (to_json : Payload → Bytes)
    (created : Result KafkaError (List (Option KafkaError)))
    → (new config to_json created ≢ panicked) ↔ (
        ((contains_key "metadata.broker.list" config.rdkafka ≡ true)
          ⊎ (contains_key "bootstrap.servers" config.rdkafka ≡ true))
        × (config.topic.metadata ≢ "")
        × (config.topic.block ≢ ""))
unfolding new
new-ne-panicked_iff config to_json created = (
  λ h. ground (arith, eq_iff config.topic.metadata "", eq_iff config.topic.block ""),
  λ h p. ground (arith, h, eq_iff config.topic.metadata "", eq_iff config.topic.block ""),
)
