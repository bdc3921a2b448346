-- ===== src/Proto/Codes/RoundTrip.antt =====
-- The codes are read back from their numbers.
use replog.Prelude.{◌≡◌, refl, arith}
use replog.Proto.Wire.{put_u8, put_u16, u8, u16}
use replog.Proto.Wire.Monad.{pure}
use replog.Proto.Wire.Reads.{Reads, Reads-map}
use replog.Proto.Wire.Primitives.{Reads-u8, Reads-u16, IsU16}
use replog.Proto.Codes.{
  ErrorCode, error_as_u16, error_from_u16, read_error, Acks, acks_as_u8, acks_from_u8, read_acks,
}

error_from_u16-error_as_u16 : (e : ErrorCode) → error_from_u16 (error_as_u16 e) ≡ pure e
unfolding error_from_u16 error_as_u16
error_from_u16-error_as_u16 ErrorCode.none = refl
error_from_u16-error_as_u16 _ = refl

error_as_u16-IsU16 : (e : ErrorCode) → IsU16 (error_as_u16 e)
unfolding error_as_u16
error_as_u16-IsU16 ErrorCode.none = omega arith
error_as_u16-IsU16 _ = omega arith

pub Reads-error : (e : ErrorCode) → Reads read_error (put_u16 (error_as_u16 e)) e
unfolding read_error
Reads-error e =
    Reads-map u16 error_from_u16 (put_u16 (error_as_u16 e)) (error_as_u16 e) e
      (error_from_u16-error_as_u16 e) (Reads-u16 (error_as_u16 e) (error_as_u16-IsU16 e))

acks_from_u8-acks_as_u8 : (a : Acks) → acks_from_u8 (acks_as_u8 a) ≡ pure a
unfolding acks_from_u8 acks_as_u8
acks_from_u8-acks_as_u8 Acks.none = refl
acks_from_u8-acks_as_u8 _ = refl

pub Reads-acks : (a : Acks) → Reads read_acks (put_u8 (acks_as_u8 a)) a
unfolding read_acks
Reads-acks a =
    Reads-map u8 acks_from_u8 (put_u8 (acks_as_u8 a)) (acks_as_u8 a) a (acks_from_u8-acks_as_u8 a)
      (Reads-u8 (acks_as_u8 a))
