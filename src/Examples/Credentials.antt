-- ===== src/Examples/Credentials.antt =====
-- Tests of the capabilities, with a toy library of encodings: bytes are texts, base64 is the identity,
-- and the digest is the same for all.
use mathlib.Core.Option
use panopticon_next.Base.{String, ◌≡◌, ◌↔◌, refl, some, [], ◌∷◌, concat}
use panopticon_next.Taskservice.Auth.{
  Library, AuthTokens, Privilege, derive_task_capability, decode_task_capability,
  authenticate_token,
}
use panopticon_next.Taskservice.Auth.Capabilities.{
  IsIssued, IsStandard, IsAuthentic, decode_task_capability_iff, authenticate_token_sound,
}

abbrev pub toy : Library
toy = record {
  Bytes = String;
  encode = λ s. s;
  decode = λ s. some s;
  b64encode = λ s. s;
  b64decode = λ s. some s;
  size = λ s. 4;
  append = concat;
  nul = "0";
  hmac = λ key message. "0123";
  digest_size = 4;
}

toy-IsStandard : IsStandard toy "t-17"
toy-IsStandard = record {
  subject_encoded = record {
    no_dot = refl;
    unpadded = refl;
    given = refl;
    repadded = refl;
    decoded = refl;
  };
  mac_encoded = λ root. record {
    no_dot = refl;
    unpadded = refl;
    given = refl;
    repadded = refl;
    decoded = refl;
  };
  utf8 = refl;
  mac_size = λ root. refl;
}

abbrev pub configured : AuthTokens
configured = record { read = "dashboard-read" ∷ []; write = "runner-write" ∷ [] }

abbrev presented : String
presented = "ptc1.t-17.self.0123"

decode_task_capability_iff_example :
    (decode_task_capability toy presented configured.write ≡ some "t-17")
    ↔ IsIssued toy presented configured.write "t-17"
decode_task_capability_iff_example =
    decode_task_capability_iff toy "t-17" toy-IsStandard presented configured.write

presented_authenticates :
    authenticate_token toy configured presented
    ≡ some (record { privilege = Privilege.write; task_id = some "t-17" })
unfolding authenticate_token decode_task_capability derive_task_capability Option.bind
presented_authenticates = refl

authenticate_token_sound_example :
    IsAuthentic toy configured presented
      (record { privilege = Privilege.write; task_id = some "t-17" })
authenticate_token_sound_example =
    authenticate_token_sound toy configured presented
      (record { privilege = Privilege.write; task_id = some "t-17" }) presented_authenticates
