-- ===== src/Web.antt =====
-- Package web, its middleware and the writer proxy.
pub mod Method
pub mod Route
pub mod Context
pub mod Bytecode
pub mod Router
pub mod StringPattern
pub mod MiddlewareStack
pub mod Mux
pub mod AutoOptions
pub mod Middleware
pub mod WriterProxy
pub mod RegexpPattern
pub mod FuncEqual
