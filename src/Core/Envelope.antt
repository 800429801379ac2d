-- ===== src/Core/Envelope.antt =====
-- core/registry.go: a payload that one program stores and another, maybe newer, reads.
use goncordia.Prelude.{ℕ, ◌<◌, ◌≡◌, inl, inr, ◌⊎◌, ℤ, pos, String, Option, none, some}
use goncordia.Core.Payload.{
  EnvelopeCodec, WorkerOpts, decode_payload, payload_for, current_version, Upcasts,
}

decode_or : EnvelopeCodec → Option String → Option (ℤ × String)
decode_or codec none = none
decode_or codec (some text) = decode_payload codec text

pair_or : Option (ℤ × String) → ℤ × String
pair_or none = (pos 0, "")
pair_or (some x) = x

-- What a worker at its version makes of a payload that was stored at another: it refuses a newer one,
-- takes one of its own version as it is, and makes of an older one what the upcasters of the
-- versions between make of it, one after another, or refuses it.
abbrev pub IsRead : EnvelopeCodec → WorkerOpts → String → String → ℕ → Type 0
IsRead codec opts payload text version =
    ((current_version opts < version)
      × (payload_for codec opts text ≡ inl "unsupported payload version"))
    ⊎ ((current_version opts ≡ version) × (payload_for codec opts text ≡ inr payload))
    ⊎ ((version < current_version opts)
        × (((why : String) × (payload_for codec opts text ≡ inl why))
            ⊎ ((result : String) × (payload_for codec opts text ≡ inr result)
                × Upcasts opts.upcasters version payload (current_version opts) result)))
