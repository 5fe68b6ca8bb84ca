-- ===== src/Usb/Types.antt =====
-- usb/configuration.go: what a configuration is.
use ostiole.Base.{ℕ, List}

pub data TransferType : Type 0 where
  control isochronous bulk interrupt : TransferType

pub record Endpoint : Type 0 where
  pub address : ℕ
  pub transfer_type : TransferType
  pub max_packet_size : ℕ

pub record AlternateSetting : Type 0 where
  pub number : ℕ
  pub class : ℕ
  pub subclass : ℕ
  pub protocol : ℕ
  pub endpoints : List Endpoint

pub record Interface : Type 0 where
  pub number : ℕ
  pub alternates : List AlternateSetting

pub record Configuration : Type 0 where
  pub value : ℕ
  pub interfaces : List Interface
