-- ===== src/Device/Noise/Messages/Examples.antt =====
-- Messages of device/noise-protocol.go at concrete sizes.
use wgservermgr.Prelude.{◌≡◌, refl, some, ◌∷◌, arith}
use wgservermgr.Prelude.Bytes.{Bytes, zeros}
use wgservermgr.Device.Noise.Messages.{MessageInitiation, marshal_initiation, unmarshal_initiation}
use wgservermgr.Device.Noise.Messages.Initiation.{SizedInitiation, unmarshal-marshal_initiation}

abbrev full_initiation : MessageInitiation
full_initiation = record {
  type = 1;
  sender = 71;
  ephemeral = 8 ∷ zeros 31;
  static = zeros 48;
  timestamp = zeros 28;
  mac1 = zeros 16;
  mac2 = zeros 16;
}

abbrev blank_initiation : MessageInitiation
blank_initiation = record full_initiation { type = 0; sender = 0; ephemeral = zeros 32 }

initiation_Sized : SizedInitiation full_initiation
initiation_Sized = record {
  type = ground arith;
  sender = ground arith;
  ephemeral = refl;
  static = refl;
  timestamp = refl;
  mac1 = refl;
  mac2 = refl;
}

blank_Sized : SizedInitiation blank_initiation
blank_Sized = record {
  type = ground arith;
  sender = ground arith;
  ephemeral = refl;
  static = refl;
  timestamp = refl;
  mac1 = refl;
  mac2 = refl;
}

unmarshal-marshal_initiation_example :
    (b' : Bytes) × (marshal_initiation full_initiation (zeros 148) ≡ some b')
    × (unmarshal_initiation blank_initiation b' ≡ some full_initiation)
unmarshal-marshal_initiation_example =
    unmarshal-marshal_initiation full_initiation blank_initiation (zeros 148) initiation_Sized
      blank_Sized refl
