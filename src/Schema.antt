-- ===== src/Schema.antt =====
-- The tables of prisma/schema.prisma that the services read and write, each as the list of its
-- rows, in one database state. Text that only a reader sees (notes, messages) is left out.
use Prim.Native.String.{String}
use stock_pilot_be.Prelude.{ℕ, Bool, Option, List}
use stock_pilot_be.Prelude.Int.{ℤ}

pub data MovementType : Type 0 where
  inflow outflow order_fulfill order_cancel_restock return_restock audit_adjustment : MovementType

pub data OrderStatus : Type 0 where
  draft confirmed fulfilled canceled : OrderStatus

pub data StockTakeStatus : Type 0 where
  draft in_progress completed canceled : StockTakeStatus

pub data PaymentProvider : Type 0 where
  cash_drawer payos_link : PaymentProvider

pub data PaymentMethod : Type 0 where
  cash bank_transfer payos : PaymentMethod

pub data PaymentStatus : Type 0 where
  pending paid failed canceled refunded partially_refunded : PaymentStatus

pub record Store : Type 0 where
  pub id : ℕ
  pub is_active : Bool

-- `product_is_active` is the `isActive` of the item's product.
pub record StockItem : Type 0 where
  pub id : ℕ
  pub store_id : ℕ
  pub sku : String
  pub cost_price : ℤ
  pub selling_price : ℤ
  pub is_active : Bool
  pub product_is_active : Bool

pub record Warehouse : Type 0 where
  pub id : ℕ
  pub store_id : ℕ
  pub is_default : Bool
  pub is_active : Bool

-- Unique by warehouse and stock item.
pub record InventoryBalance : Type 0 where
  pub store_id : ℕ
  pub warehouse_id : ℕ
  pub stock_item_id : ℕ
  pub quantity : ℤ
  pub reserved_quantity : ℤ

-- Unique by its idempotency key, where it has one.
pub record StockMovement : Type 0 where
  pub id : ℕ
  pub store_id : ℕ
  pub warehouse_id : ℕ
  pub stock_item_id : ℕ
  pub type : MovementType
  pub delta : ℤ
  pub before_quantity : ℤ
  pub after_quantity : ℤ
  pub reference_type : String
  pub reference_id : String
  pub idempotency_key : Option String
  pub created_by_id : Option ℕ

pub record Order : Type 0 where
  pub id : ℕ
  pub store_id : ℕ
  pub order_number : String
  pub status : OrderStatus
  pub subtotal_amount : ℤ
  pub discount_amount : ℤ
  pub tax_amount : ℤ
  pub total_amount : ℤ
  pub created_by_id : ℕ
  pub created_at : ℕ
  pub confirmed_at : Option ℕ
  pub fulfilled_at : Option ℕ
  pub canceled_at : Option ℕ
  pub client_request_key : Option String

pub record OrderItem : Type 0 where
  pub id : ℕ
  pub store_id : ℕ
  pub order_id : ℕ
  pub stock_item_id : ℕ
  pub sku_snapshot : String
  pub unit_price_snapshot : ℤ
  pub cost_price_snapshot : ℤ
  pub quantity : ℤ
  pub refundable_amount : ℤ
  pub refunded_amount : ℤ
  pub returned_quantity : ℤ
  pub subtotal : ℤ

pub record ReturnOrder : Type 0 where
  pub id : ℕ
  pub store_id : ℕ
  pub order_id : ℕ
  pub return_number : String
  pub total_refund_amount : ℤ
  pub client_request_key : Option String
  pub created_by_id : ℕ

pub record ReturnItem : Type 0 where
  pub store_id : ℕ
  pub return_order_id : ℕ
  pub order_item_id : ℕ
  pub stock_item_id : ℕ
  pub quantity : ℤ
  pub refund_price : ℤ
  pub is_restockable : Bool
  pub restock_warehouse_id : Option ℕ

pub record StockTake : Type 0 where
  pub id : ℕ
  pub store_id : ℕ
  pub warehouse_id : ℕ
  pub status : StockTakeStatus
  pub started_at : Option ℕ
  pub completed_at : Option ℕ
  pub created_by_id : ℕ

-- Unique by stock take and stock item.
pub record StockTakeItem : Type 0 where
  pub store_id : ℕ
  pub stock_take_id : ℕ
  pub stock_item_id : ℕ
  pub expected_quantity : ℤ
  pub counted_quantity : ℤ
  pub variance_quantity : ℤ
  pub adjustment_movement_id : Option ℕ

-- Unique by its provider and reference, and by its client request key, where it has one.
pub record Payment : Type 0 where
  pub id : ℕ
  pub store_id : ℕ
  pub order_id : ℕ
  pub provider : PaymentProvider
  pub method : PaymentMethod
  pub amount : ℤ
  pub status : PaymentStatus
  pub provider_reference : Option String
  pub client_request_key : Option String

-- Unique by store and provider. The secrets are encrypted.
pub record StorePaymentConfig : Type 0 where
  pub store_id : ℕ
  pub provider : PaymentProvider
  pub is_active : Bool
  pub client_id_encrypted : String
  pub api_key_encrypted : String
  pub checksum_key_encrypted : String

pub data Role : Type 0 where
  admin shop_owner warehouse_staff : Role

pub record User : Type 0 where
  pub id : ℕ
  pub store_id : Option ℕ
  pub role : Role
  pub is_active : Bool

pub record Notification : Type 0 where
  pub store_id : ℕ
  pub user_id : ℕ
  pub entity_type : String
  pub entity_id : ℕ

pub record AuditLog : Type 0 where
  pub store_id : Option ℕ
  pub user_id : Option ℕ
  pub action : String
  pub entity_type : String
  pub entity_id : String

-- `next_id` stands for the tables' AUTO_INCREMENT counters. New rows go to the front.
pub record Database : Type 0 where
  pub next_id : ℕ
  pub stores : List Store
  pub stock_items : List StockItem
  pub warehouses : List Warehouse
  pub balances : List InventoryBalance
  pub movements : List StockMovement
  pub orders : List Order
  pub order_items : List OrderItem
  pub return_orders : List ReturnOrder
  pub return_items : List ReturnItem
  pub stock_takes : List StockTake
  pub stock_take_items : List StockTakeItem
  pub payments : List Payment
  pub payment_configs : List StorePaymentConfig
  pub audit_logs : List AuditLog
  pub users : List User
  pub notifications : List Notification
