-- ===== src/Http/Statu.antt =====
-- HttpRecvStatu of Http/Http.hpp: what the parser of a connection waits for.
pub data HttpRecvStatu : Type 0 where
  recv_http_err recv_http_line recv_http_head recv_http_body recv_http_over : HttpRecvStatu
