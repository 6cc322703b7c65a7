-- ===== src/FieldTypes/Tables.antt =====
-- src/dictionary/field_types/other.rs: enumerations of the dictionary, one to a file.
pub mod BusinessRejectReason
pub mod CpProgram
pub mod EncryptMethod
pub mod EventType
pub mod HandlInst
pub mod MsgDirection
pub mod OrdType
pub mod SecurityIdSource
pub mod SessionRejectReason
pub mod Side
pub mod TimeInForce
pub mod TimeUnit
pub mod PriceQuoteMethod
pub mod RateSource
pub mod Lossless
