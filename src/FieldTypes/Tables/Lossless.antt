-- ===== src/FieldTypes/Tables/Lossless.antt =====
-- src/dictionary/field_types/other.rs: proofs that each variant of these enumerations is read back.
use fix_rs.Prelude.{refl}
use fix_rs.FieldTypes.Enum.{lookup, lookup_value}
use fix_rs.FieldTypes.Enum.RoundTrip.{IsTable, IsValueTable}
use fix_rs.FieldTypes.Tables.BusinessRejectReason
use fix_rs.FieldTypes.Tables.BusinessRejectReason.{BusinessRejectReason}
use fix_rs.FieldTypes.Tables.CpProgram
use fix_rs.FieldTypes.Tables.CpProgram.{CpProgram}
use fix_rs.FieldTypes.Tables.EncryptMethod
use fix_rs.FieldTypes.Tables.EncryptMethod.{EncryptMethod}
use fix_rs.FieldTypes.Tables.EventType
use fix_rs.FieldTypes.Tables.EventType.{EventType}
use fix_rs.FieldTypes.Tables.HandlInst
use fix_rs.FieldTypes.Tables.HandlInst.{HandlInst}
use fix_rs.FieldTypes.Tables.MsgDirection
use fix_rs.FieldTypes.Tables.MsgDirection.{MsgDirection}
use fix_rs.FieldTypes.Tables.OrdType
use fix_rs.FieldTypes.Tables.OrdType.{OrdType}
use fix_rs.FieldTypes.Tables.SecurityIdSource
use fix_rs.FieldTypes.Tables.SecurityIdSource.{SecurityIdSource}
use fix_rs.FieldTypes.Tables.SessionRejectReason
use fix_rs.FieldTypes.Tables.SessionRejectReason.{SessionRejectReason}
use fix_rs.FieldTypes.Tables.Side
use fix_rs.FieldTypes.Tables.Side.{Side}
use fix_rs.FieldTypes.Tables.TimeInForce
use fix_rs.FieldTypes.Tables.TimeInForce.{TimeInForce}
use fix_rs.FieldTypes.Tables.TimeUnit
use fix_rs.FieldTypes.Tables.TimeUnit.{TimeUnit}
use fix_rs.FieldTypes.Tables.PriceQuoteMethod
use fix_rs.FieldTypes.Tables.PriceQuoteMethod.{PriceQuoteMethod}
use fix_rs.FieldTypes.Tables.RateSource
use fix_rs.FieldTypes.Tables.RateSource.{RateSource}

pub BusinessRejectReason-IsTable : IsTable BusinessRejectReason.to_bytes BusinessRejectReason.all
unfolding lookup BusinessRejectReason.to_bytes
BusinessRejectReason-IsTable BusinessRejectReason.other = refl
BusinessRejectReason-IsTable _ = refl

pub CpProgram-IsValueTable : IsValueTable CpProgram.value_of CpProgram.all
unfolding lookup_value CpProgram.value_of
CpProgram-IsValueTable CpProgram.program_3_a3 = refl
CpProgram-IsValueTable _ = refl

pub EncryptMethod-IsTable : IsTable EncryptMethod.to_bytes EncryptMethod.all
unfolding lookup EncryptMethod.to_bytes
EncryptMethod-IsTable EncryptMethod.no_method = refl
EncryptMethod-IsTable _ = refl

pub EventType-IsValueTable : IsValueTable EventType.value_of EventType.all
unfolding lookup_value EventType.value_of
EventType-IsValueTable EventType.put = refl
EventType-IsValueTable _ = refl

pub HandlInst-IsTable : IsTable HandlInst.to_bytes HandlInst.all
unfolding lookup HandlInst.to_bytes
HandlInst-IsTable HandlInst.automated_execution_order_private_no_broker_intervention = refl
HandlInst-IsTable _ = refl

pub MsgDirection-IsTable : IsTable MsgDirection.to_bytes MsgDirection.all
unfolding lookup MsgDirection.to_bytes
MsgDirection-IsTable MsgDirection.receive = refl
MsgDirection-IsTable _ = refl

pub OrdType-IsTable : IsTable OrdType.to_bytes OrdType.all
unfolding lookup OrdType.to_bytes
OrdType-IsTable OrdType.market = refl
OrdType-IsTable _ = refl

pub SecurityIdSource-IsTable : IsTable SecurityIdSource.to_bytes SecurityIdSource.all
unfolding lookup SecurityIdSource.to_bytes
SecurityIdSource-IsTable SecurityIdSource.cusip = refl
SecurityIdSource-IsTable _ = refl

pub SessionRejectReason-IsValueTable :
    IsValueTable SessionRejectReason.value_of SessionRejectReason.all
unfolding lookup_value SessionRejectReason.value_of
SessionRejectReason-IsValueTable SessionRejectReason.invalid_tag_number = refl
SessionRejectReason-IsValueTable _ = refl

pub Side-IsTable : IsTable Side.to_bytes Side.all
unfolding lookup Side.to_bytes
Side-IsTable Side.buy = refl
Side-IsTable _ = refl

pub TimeInForce-IsTable : IsTable TimeInForce.to_bytes TimeInForce.all
unfolding lookup TimeInForce.to_bytes
TimeInForce-IsTable TimeInForce.day = refl
TimeInForce-IsTable _ = refl

pub TimeUnit-IsTable : IsTable TimeUnit.to_bytes TimeUnit.all
unfolding lookup TimeUnit.to_bytes
TimeUnit-IsTable TimeUnit.hour = refl
TimeUnit-IsTable _ = refl

pub PriceQuoteMethod-IsTable : IsTable PriceQuoteMethod.to_bytes PriceQuoteMethod.all
unfolding lookup PriceQuoteMethod.to_bytes
PriceQuoteMethod-IsTable PriceQuoteMethod.percent_of_par = refl
PriceQuoteMethod-IsTable _ = refl

pub RateSource-IsTable : IsTable RateSource.to_bytes RateSource.all
unfolding lookup RateSource.to_bytes
RateSource-IsTable RateSource.bloomberg = refl
RateSource-IsTable _ = refl

-- Each variant of each of these enumerations is found at what it is written as: no two share their bytes or their number.
pub tables_lem :
    IsTable BusinessRejectReason.to_bytes BusinessRejectReason.all
    × IsValueTable CpProgram.value_of CpProgram.all
    × IsTable EncryptMethod.to_bytes EncryptMethod.all
    × IsValueTable EventType.value_of EventType.all
    × IsTable HandlInst.to_bytes HandlInst.all
    × IsTable MsgDirection.to_bytes MsgDirection.all
    × IsTable OrdType.to_bytes OrdType.all
    × IsTable SecurityIdSource.to_bytes SecurityIdSource.all
    × IsValueTable SessionRejectReason.value_of SessionRejectReason.all
    × IsTable Side.to_bytes Side.all
    × IsTable TimeInForce.to_bytes TimeInForce.all
    × IsTable TimeUnit.to_bytes TimeUnit.all
    × IsTable PriceQuoteMethod.to_bytes PriceQuoteMethod.all
    × IsTable RateSource.to_bytes RateSource.all
tables_lem = (
  BusinessRejectReason-IsTable, CpProgram-IsValueTable, EncryptMethod-IsTable,
  EventType-IsValueTable, HandlInst-IsTable, MsgDirection-IsTable, OrdType-IsTable,
  SecurityIdSource-IsTable, SessionRejectReason-IsValueTable, Side-IsTable, TimeInForce-IsTable,
  TimeUnit-IsTable, PriceQuoteMethod-IsTable, RateSource-IsTable,
)
