-- ===== src/Pki.antt =====
-- pkg/resources/pki: the cert-manager issuers and certificates of a control plane.
pub mod CommonNames
pub mod Addresses
pub mod Sans
pub mod IssuerResources
pub mod Roots
pub mod Serving
pub mod EtcdCertificates
pub mod Clients
pub mod Resources
pub mod Built
pub mod Trust
pub mod Carry
pub mod Distinctness
pub mod FirstService
pub mod Coverage
pub mod Fields
