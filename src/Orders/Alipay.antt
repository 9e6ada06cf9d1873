-- ===== src/Orders/Alipay.antt =====
-- The payment provider as the services call it (backend/app/integrations/alipay/adapter.py): its
-- answers are parameters.
use travel_latest.Base.{ℕ, String, Bool, false, Option, none, some, List, str_eq}
use travel_latest.Base.Signed.{ℤ, eq_amount}
use travel_latest.Base.Exec.{or_raise}
use travel_latest.Orders.Model.{payment_not_configured}
use travel_latest.Orders.Session.{M}
use travel_latest.Orders.Fulfillment.{Reply}

pub record RefundRequest : Type 0 where
  pub out_trade_no : ℕ
  pub refund_amount : ℕ
  pub out_request_no : ℕ
  pub refund_reason : String

pub record TradeRefundResult : Type 0 where
  pub out_trade_no : Option ℕ
  pub trade_no : Option ℕ
  pub out_request_no : Option ℕ
  pub refund_fee : Option ℤ
  pub fund_change : Option String
  pub gateway_code : String

-- The subject of a payment: `f"Travel order {order.order_no}"`, or the name of a plan.
pub data Subject : Type 0 where
  travel_order : ℕ → Subject
  plan : String → Subject

pub record WapPaymentRequest : Type 0 where
  pub out_trade_no : ℕ
  pub total_amount : ℕ
  pub subject : Subject
  pub return_url : Option String

pub record PrecreateRequest : Type 0 where
  pub out_trade_no : ℕ
  pub total_amount : ℕ
  pub subject : Subject
  pub timeout_express : String

pub record VerifiedAlipayCallback : Type 0 where
  pub out_trade_no : ℕ
  pub trade_no : ℕ
  pub trade_status : String
  pub total_amount : ℤ

pub record TradeQueryResult : Type 0 where
  pub out_trade_no : Option ℕ
  pub trade_no : Option ℕ
  pub trade_status : Option String
  pub total_amount : Option ℤ
  pub gateway_code : String

-- A form that the provider posts.
abbrev pub CallbackForm : Type 0
CallbackForm = List (String × String)

-- `none` stands for a call that raises; `create_precreate` gives the QR code; `verify_callback` may also return `None`, to which the
-- service answers in the same way.
pub record AlipayAdapter : Type 0 where
  pub app_id : String
  pub create_wap_redirect : WapPaymentRequest → Option String
  pub create_precreate : PrecreateRequest → Option String
  pub verify_callback : CallbackForm → Option VerifiedAlipayCallback
  pub query_trade : ℕ → Reply TradeQueryResult
  pub refund_trade : RefundRequest → Option TradeRefundResult

-- `_require_adapter`: `none` is no adapter, or an `UnavailableAlipayAdapter`.
abbrev pub require_adapter : Option AlipayAdapter → M AlipayAdapter
require_adapter adapter = or_raise adapter payment_not_configured

-- `x == y` where `x` may be `None`
abbrev pub is_text : Option String → String → Bool
is_text none t = false
is_text (some s) t = str_eq s t

abbrev pub is_amount : Option ℤ → ℕ → Bool
is_amount none a = false
is_amount (some z) a = eq_amount a z
