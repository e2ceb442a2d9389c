-- ===== src/Proxy.antt =====
-- The pool of proxies (novel_crawler/core/proxy_pool.py).
pub mod Pool
pub mod Serving
mod Witness
